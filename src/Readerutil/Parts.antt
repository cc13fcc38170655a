-- ===== src/Readerutil/Parts.antt =====
-- readerutil/multireaderat.go: several readers with sizes, read as one.
pub mod Loop
pub mod Whole
use go.Common.{
  ℕ, zero, suc, ◌+◌, ◌-◌, ◌%◌, ◌^◌, ◌≤◌, ◌<◌, ◌≡◌, min, Bool, true, false, ◌&&◌, Option, none, some,
  List, [], ◌∷◌, ◌++◌, ◌==◌, ltb, leb, if◌then◌else◌, length, get_elem?, take, drop, replicate,
}

-- `failed` is an error of a part.
pub data ReadErr : Type 0 where
  unexpected_eof eof stuck : ReadErr
  failed : ℕ → ReadErr

-- `SizeReaderAt`: `ReadAt` of so many bytes at an offset gives those that it reads, and an error.
pub record SizeReaderAt : Type 0 where
  pub size : ℕ
  pub read_at : ℕ → ℕ → List ℕ × Option ReadErr

-- `offsetAndSource`
pub record OffsetAndSource : Type 0 where
  pub off : ℕ
  pub source : SizeReaderAt

pub record MultiRa : Type 0 where
  pub parts : List OffsetAndSource
  pub size : ℕ

-- The loop of `NewMultiReaderAt`, from the offset `off` on.
unfoldable pub with_offsets : ℕ → List SizeReaderAt → List OffsetAndSource × ℕ
with_offsets off [] = ([], off)
with_offsets off (p ∷ ps) =
    let (rest, size) = with_offsets ((off + p.size) % 2 ^ 64) ps in
    (record { off = off; source = p } ∷ rest, size)

unfoldable pub new_multi_reader_at : List SizeReaderAt → MultiRa
unfolding with_offsets
new_multi_reader_at ps =
    let (parts, size) = with_offsets 0 ps in record { parts = parts; size = size }

-- The end of `ReadAt`: fewer bytes than wanted are an error.
abbrev pub finish : ℕ → List ℕ → List ℕ × Option ReadErr
finish want out = (out, if length out == want then none else some unexpected_eof)

-- The loop of `ReadAt`: `k` is what is left of the buffer, `skip` is `needSkip`, and `out` is what the
-- buffer holds. A round reads from one part; fuel bounds the rounds.
unfoldable pub read_parts : ℕ → ℕ → List OffsetAndSource → ℕ → ℕ → List ℕ → List ℕ × Option ReadErr
read_parts zero want parts k skip out = (out, some stuck)
read_parts (suc fuel) want [] k skip out = finish want out
read_parts (suc fuel) want (part ∷ rest) zero skip out = finish want out
read_parts (suc fuel) want (part ∷ rest) (suc k) skip out =
    let (got, err) = part.source.read_at (min (suc k) (part.source.size - skip)) skip in
    let next =
      read_parts fuel want (if length got + skip == part.source.size then rest else part ∷ rest)
        (suc k - length got) 0 (out ++ got) in
    elim err [ some e ↦ (out, some e) | none ↦ next ]

-- Whether a part contributes any bytes behind `off`.
unfoldable pub contributes : ℕ → List OffsetAndSource → ℕ → Bool
contributes off parts i = elim (get_elem? parts i) [
  | none ↦ false
  | some part ↦ ltb off ((part.off + part.source.size) % 2 ^ 64)
]

abbrev pub first_skip : ℕ → List OffsetAndSource → ℕ
first_skip off [] = off
first_skip off (part ∷ _) = off - part.off

-- `sort.Search` is a parameter. An offset is not negative, and the sizes of the parts come to
-- less than 2 ^ 63 wherever something is proved, so that an `int64` is its own value.
module _ (search : ℕ → (ℕ → Bool) → ℕ) where
  unfoldable pub multi_read_at : MultiRa → ℕ → ℕ → List ℕ × Option ReadErr
  unfolding contributes read_parts
  multi_read_at m k off =
      let parts = drop (search (length m.parts) (contributes off m.parts)) m.parts in
      read_parts (suc (suc (length parts))) k parts k (first_skip off parts) []

  -- A `multiRA` is itself a `SizeReaderAt`.
  unfoldable pub multi_source : List SizeReaderAt → SizeReaderAt
  unfolding multi_read_at new_multi_reader_at
  multi_source ps = record {
    size = (new_multi_reader_at ps).size;
    read_at = multi_read_at (new_multi_reader_at ps);
  }

-- `ZeroSizeReaderAt`: any read gives zeros.
unfoldable pub zero_size_reader_at : ℕ → SizeReaderAt
zero_size_reader_at n = record { size = n; read_at = λ k off. (replicate k 0, none) }

-- `bytes.NewReader`: at its end or past it even a read of no bytes gives `io.EOF`.
unfoldable pub bytes_reader : List ℕ → SizeReaderAt
bytes_reader xs = record {
  size = length xs;
  read_at = λ k off. (
    take k (drop off xs),
    if ltb off (length xs) && leb (off + k) (length xs) then none else some eof,
  );
}
