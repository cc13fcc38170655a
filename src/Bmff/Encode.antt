-- ===== src/Bmff/Encode.antt =====
-- The encodings that media/heif/bmff reads, written from the other side: what a writer of boxes
-- puts into a file. They serve to state what the readers give back.
use go.Common.{
  ℕ, zero, suc, ◌+◌, ◌/◌, ◌%◌, ◌^◌, ◌<◌, ◌≡◌, refl, arith, Bool, List, [], ◌∷◌, ◌++◌, length,
  if◌then◌else◌, length-append,
}
use go.Bmff.Stream.{be}

-- The lowest `n` bytes of a number, the highest first.
unfoldable pub be_bytes : ℕ → ℕ → List ℕ
be_bytes zero v = []
be_bytes (suc n) v = (v / 256 ^ n % 256) ∷ be_bytes n v

pub length-be_bytes : (n v : ℕ) → length (be_bytes n v) ≡ n
unfolding be_bytes
length-be_bytes zero v = refl
length-be_bytes (suc n) v = omega (arith, length-be_bytes n v)

pub be_one : (v : ℕ) → v < 2 ^ 8 → be (be_bytes 1 v) ≡ v
unfolding be be_bytes
be_one v h = omega arith

pub be_two : (v : ℕ) → v < 2 ^ 16 → be (be_bytes 2 v) ≡ v
unfolding be be_bytes
be_two v h = omega arith

pub be_four : (v : ℕ) → v < 2 ^ 32 → be (be_bytes 4 v) ≡ v
unfolding be be_bytes
be_four v h = omega arith

pub be_eight : (v : ℕ) → v < 2 ^ 64 → be (be_bytes 8 v) ≡ v
unfolding be be_bytes
be_eight v h = omega arith

-- A box to write: with the size in 32 bits, or in 64 behind the type.
pub record Item : Type 0 where
  pub large : Bool
  pub box_type : List ℕ
  pub body : List ℕ

abbrev pub header_length : Item → ℕ
header_length it = if it.large then 16 else 8

abbrev pub box_length : Item → ℕ
box_length it = header_length it + length it.body

unfoldable pub encode_box : Item → List ℕ
encode_box it =
    if it.large
    then be_bytes 4 1 ++ (it.box_type ++ (be_bytes 8 (box_length it) ++ it.body))
    else be_bytes 4 (box_length it) ++ (it.box_type ++ it.body)

unfoldable pub encode_boxes : List Item → List ℕ
unfolding encode_box
encode_boxes [] = []
encode_boxes (it ∷ its) = encode_box it ++ encode_boxes its

-- What the size field can hold; the reader takes no size of 2 ^ 63 or more.
pub record Fits (it : Item) : Type 0 where
  pub four : length it.box_type ≡ 4
  pub size : box_length it < (if it.large then 2 ^ 63 else 2 ^ 32)

pub length-encode_box : (it : Item) → Fits it → length (encode_box it) ≡ box_length it
unfolding encode_box
length-encode_box it f = ground (
  arith,
  length-append (be_bytes 4 1) (it.box_type ++ (be_bytes 8 (box_length it) ++ it.body)),
  length-append it.box_type (be_bytes 8 (box_length it) ++ it.body),
  length-append (be_bytes 8 (box_length it)) it.body,
  length-append (be_bytes 4 (box_length it)) (it.box_type ++ it.body),
  length-append it.box_type it.body,
  length-be_bytes 4 1,
  length-be_bytes 4 (box_length it),
  length-be_bytes 8 (box_length it),
)
