-- ===== src/Bmff/Stream.antt =====
-- What media/heif/bmff/bmff.go uses of Go's bufio and io: a stream of bytes that ends in an error.
-- Any error of a source is one value `source`; the errors that the package makes are told apart,
-- but for their texts. `stuck` is none of the program's: a loop of the model ran out of fuel.
use go.Common.{
  ℕ, ◌+◌, ◌*◌, Bool, true, false, Option, none, some, List, [], ◌∷◌, leb, ◌==◌, if◌then◌else◌,
  length, take, drop,
}

pub data Err : Type 0 where
  eof unexpected_eof source : Err
  unknown_box large_box negative_body : Err
  uint_size : Err
  short_full_box : Err → Err
  infe_version : ℕ → Err
  item_info : Err → Err
  few_children first_child : Err
  child : Err → Err
  no_container no_association : Err
  item_reference : Err → Err
  wrong_type : Err
  keys_size mvhd_version : ℕ → Err
  short_data : Err
  list_item : Err → Err
  stuck : Err

pub data Result {ℓ} (A : Type ℓ) : Type ℓ where
  ok : A → Result A
  err : Err → Result A

-- A read past `bytes` answers `fault`, which is `eof` where the input ends.
pub record Stream : Type 0 where
  pub bytes : List ℕ
  pub fault : Err

-- `io.EOF` in the middle of what `io.ReadFull` wants is `io.ErrUnexpectedEOF`.
unfoldable pub short : Bool → Err → Err
short false eof = unexpected_eof
short _ e = e

abbrev pub is_empty : List ℕ → Bool
is_empty [] = true
is_empty (_ ∷ _) = false

-- `io.ReadFull` of `n` bytes. Where they are not all there, what is there is used up.
unfoldable pub read_full : ℕ → Stream → Result (List ℕ) × Stream
unfolding short
read_full n s =
    if leb n (length s.bytes)
    then (ok (take n s.bytes), record s { bytes = drop n s.bytes })
    else (err (short (is_empty s.bytes) s.fault), record s { bytes = [] })

-- `bufio.Reader.Peek`, for no more bytes than the buffer holds.
unfoldable pub peek : ℕ → Stream → Result (List ℕ)
peek n s = if leb n (length s.bytes) then ok (take n s.bytes) else err s.fault

unfoldable pub discard : ℕ → Stream → Stream
discard n s = record s { bytes = drop n s.bytes }

-- The bytes up to the first 0, with it if there is one, and those behind it.
unfoldable pub split_zero : List ℕ → Option (List ℕ × List ℕ)
split_zero [] = none
split_zero (b ∷ bs) =
    let rest = split_zero bs in
    if b == 0 then some (b ∷ [], bs) else elim rest [ none ↦ none | some (s, t) ↦ some (b ∷ s, t) ]

-- `binary.BigEndian`: the number that a list of bytes stands for, the highest byte first.
unfoldable pub be_from : ℕ → List ℕ → ℕ
be_from acc [] = acc
be_from acc (b ∷ bs) = be_from (256 * acc + b) bs

unfoldable pub be : List ℕ → ℕ
unfolding be_from
be bs = be_from 0 bs
