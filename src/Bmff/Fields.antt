-- ===== src/Bmff/Fields.antt =====
-- `bufReader` of media/heif/bmff/bmff.go: reads of fixed fields behind a sticky error.
-- A method returns its value beside the new reader; its Go error is the reader's own `err`.
use go.Common.{
  ℕ, ◌/◌, Bool, true, false, Option, none, some, List, [], ◌∷◌, ◌==◌, ◌||◌, if◌then◌else◌,
}
use go.Bmff.Stream.{Err, uint_size, ok, err, Stream, peek, discard, split_zero, be}

pub record BufReader : Type 0 where
  pub stream : Stream
  pub sticky : Option Err

unfoldable pub fail : Err → BufReader → BufReader
fail e br = record br { sticky = some e }

unfoldable pub skip : ℕ → BufReader → BufReader
unfolding discard
skip n br = record br { stream = discard n br.stream }

-- `br.ok()`
abbrev pub is_ok : BufReader → Bool
is_ok br = elim br.sticky [ none ↦ true | some _ ↦ false ]

-- A guard that all methods share: with an error pending a method does nothing.
abbrev pub guarded : (BufReader → ℕ × BufReader) → BufReader → ℕ × BufReader
guarded f br = elim br.sticky [ some _ ↦ (0, br) | none ↦ f br ]

unfoldable pub any_remain : BufReader → Bool
unfolding peek
any_remain br = elim br.sticky [
  | some _ ↦ false
  | none ↦ elim (peek 1 br.stream) [ ok _ ↦ true | err _ ↦ false ]
]

-- `Peek` and `Discard` of a field of `n` bytes.
unfoldable pub read_field : ℕ → BufReader → ℕ × BufReader
unfolding peek fail skip
read_field n br = elim (peek n br.stream) [ ok buf ↦ (be buf, skip n br) | err e ↦ (0, fail e br) ]

unfoldable pub read_uint8 : BufReader → ℕ × BufReader
unfolding read_field
read_uint8 = guarded (read_field 1)

unfoldable pub read_uint16 : BufReader → ℕ × BufReader
unfolding read_field
read_uint16 = guarded (read_field 2)

unfoldable pub read_uint32 : BufReader → ℕ × BufReader
unfolding read_field
read_uint32 = guarded (read_field 4)

-- The sizes that `readUintN` knows.
abbrev pub is_uint_size : ℕ → Bool
is_uint_size bits = bits == 8 || (bits == 16 || (bits == 32 || bits == 64))

-- A size that it does not know is an error, after the bytes have been skipped all the same.
unfoldable pub read_sized : ℕ → BufReader → ℕ × BufReader
unfolding peek fail skip
read_sized bits br = elim (peek (bits / 8) br.stream) [
  | ok buf ↦
      if is_uint_size bits
      then (be buf, skip (bits / 8) br)
      else (0, fail uint_size (skip (bits / 8) br))
  | err e ↦ (0, fail e br)
]

unfoldable pub read_uint_n : ℕ → BufReader → ℕ × BufReader
unfolding read_sized
read_uint_n bits = guarded (λ br. if bits == 0 then (0, br) else read_sized bits br)

-- `strings.TrimSuffix(s, "\x00")` of what `ReadString` returns: without its last byte, a 0.
abbrev pub trim_zero : List ℕ → List ℕ
trim_zero [] = []
trim_zero (b ∷ []) = if b == 0 then [] else b ∷ []
trim_zero (b ∷ c ∷ bs) = b ∷ trim_zero (c ∷ bs)

-- With no 0 left `ReadString` takes all bytes and answers the error at their end.
unfoldable pub read_text : BufReader → List ℕ × BufReader
unfolding fail
read_text br = elim (split_zero br.stream.bytes) [
  | some (s, rest) ↦ (trim_zero s, record br { stream = record stream { bytes = rest } })
  | none ↦ ([], fail stream.fault (record br { stream = record stream { bytes = [] } }))
]
  where
    open br use {stream}

unfoldable pub read_string : BufReader → List ℕ × BufReader
unfolding read_text
read_string br = elim br.sticky [ some _ ↦ ([], br) | none ↦ read_text br ]
