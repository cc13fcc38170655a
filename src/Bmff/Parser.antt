-- ===== src/Bmff/Parser.antt =====
-- The monad of the box parsers of media/heif/bmff: a `bufReader` that is passed on, and an early return
-- with an error. The sticky error of the reader is a part of its state, and `check` returns it.
use go.Common.{ℕ, Bool, true, false, none, some, List, [], ◌∷◌, ◌&&◌, ◌==◌}
use Prim.Native.Char.{code}
use Prim.Native.String.{String}
use go.Bmff.Stream.{Err, short_full_box, Result, ok, err, peek, read_full, be}
use go.Bmff.Fields.{BufReader, skip}
use go.Bmff.Reader.{Box, parse_append_boxes}
use go.Bmff.Boxes.{FullBox}

abbrev pub P : Type 0 → Type 0
P A = BufReader → Result (A × BufReader)

infixl 5 ◌>>=◌ ◌>>◌
abbrev pub ◌>>=◌ : {A B : Type 0} → P A → (A → P B) → P B
◌>>=◌ m f br = elim (m br) [ ok (a, br') ↦ f a br' | err e ↦ err e ]

abbrev pub ◌>>◌ : {B : Type 0} → P (Unit {0}) → P B → P B
m >> k = m >>= λ _. k

abbrev pub pure : {A : Type 0} → A → P A
pure a br = ok (a, br)

abbrev pub throw : {A : Type 0} → Err → P A
throw e br = err e

-- A read whose Go error is ignored: it is the sticky one.
abbrev pub lift : {A : Type 0} → (BufReader → A × BufReader) → P A
lift f br = ok (f br)

-- `if !br.ok() { return nil, br.err }`
abbrev pub check : P (Unit {0})
check br = elim br.sticky [ none ↦ ok (tt, br) | some e ↦ err e ]

-- `Peek` where its error is returned.
abbrev pub peek_bytes : ℕ → P (List ℕ)
peek_bytes n br = elim (peek n br.stream) [ ok buf ↦ ok (buf, br) | err e ↦ err e ]

abbrev pub discard_bytes : ℕ → P (Unit {0})
discard_bytes n br = ok (tt, skip n br)

-- `io.ReadFull` where its error is returned.
abbrev pub full_bytes : ℕ → P (List ℕ)
full_bytes n br =
    let (res, s) = read_full n br.stream in
    elim res [ ok buf ↦ ok (buf, record br { stream = s }) | err e ↦ err e ]

-- A test of the sticky error, as the loops make it: with an error they end.
abbrev pub while_ok : {A : Type 0} → A → P A → P A
while_ok a m br = elim br.sticky [ none ↦ m br | some _ ↦ ok (a, br) ]

-- The four bytes of a box type, from its text.
abbrev pub tag : String → List ℕ
tag String.[] = []
tag (String.◌∷◌ c s) = code c ∷ tag s

-- Equality of Go strings.
abbrev pub same_bytes : List ℕ → List ℕ → Bool
same_bytes [] [] = true
same_bytes [] (_ ∷ _) = false
same_bytes (_ ∷ _) [] = false
same_bytes (a ∷ as') (b ∷ bs) = a == b && same_bytes as' bs

-- The three bytes of the flags are read with the version cleared.
unfoldable pub full_box_of : List ℕ → FullBox
full_box_of [] = record { version = 0; flags = 0 }
full_box_of (v ∷ rest) = record { version = v; flags = be (0 ∷ rest) }

unfoldable pub read_full_box : P FullBox
unfolding full_box_of peek skip be
read_full_box br = elim (peek 4 br.stream) [
  | ok buf ↦ ok (full_box_of buf, skip 4 br)
  | err e ↦ err (short_full_box e)
]

-- `br.parseAppendBoxes`: the error that it returns is also the sticky one.
unfoldable pub child_boxes : P (List Box)
child_boxes br = elim br.sticky [
  | some e ↦ err e
  | none ↦ elim (parse_append_boxes br.stream) [
    | ok boxes ↦ ok (boxes, record br { stream = record br.stream { bytes = [] } })
    | err e ↦ err e
  ]
]
