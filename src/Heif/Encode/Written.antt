-- ===== src/Heif/Encode/Written.antt =====
-- The properties that `EncodeImage` of media/heif/heif.go is given, as boxes of a type and a body.
use Prim.Native.Nat.{bit_or}
use go.Common.{
  ℕ, suc, ◌+◌, ◌%◌, ◌^◌, ◌<◌, ◌≡◌, refl, ap, arith, Bool, false, not, List, [], ◌∷◌, length, All,
  take, ltb, if◌then◌else◌, ◌==◌, ◌||◌,
}
use go.Bmff.Stream.{be}
use go.Bmff.Encode.{Item, Fits, encode_box, encode_boxes, be_bytes, be_four}
use go.Heif.File.{done}
use go.Heif.Encode.{PropertyBox, append_box, property_bytes}
use go.Heif.Encode.Pieces.{small, length-append_box}

-- A property to write: the type and the body of its box.
pub record Written : Type 0 where
  pub box_type : List ℕ
  pub body : List ℕ
  pub essential : Bool

abbrev pub box_of : Written → Item
box_of w = small w.box_type w.body

abbrev pub boxes_of : List Written → List Item
boxes_of [] = []
boxes_of (w ∷ ws) = box_of w ∷ boxes_of ws

abbrev pub properties_of : List Written → List PropertyBox
properties_of [] = []
properties_of (w ∷ ws) =
    record { box = encode_box (box_of w); essential = w.essential } ∷ properties_of ws

abbrev pub association_bytes : ℕ → List Written → List ℕ
association_bytes i [] = []
association_bytes i (w ∷ ws) =
    (if w.essential then bit_or ((i + 1) % 2 ^ 8) 0x80 else (i + 1) % 2 ^ 8)
    ∷ association_bytes (i + 1) ws

pub length-association_bytes :
    (i : ℕ) (ws : List Written) → length (association_bytes i ws) ≡ length ws
length-association_bytes i [] = refl
length-association_bytes i (w ∷ ws) = ap suc (length-association_bytes (i + 1) ws)

pub length-properties_of : (ws : List Written) → length (properties_of ws) ≡ length ws
length-properties_of [] = refl
length-properties_of (w ∷ ws) = ap suc (length-properties_of ws)

size_agrees :
    (x h l : ℕ)
    → x ≡ 8 + l
    → h ≡ 8 + l
    → 8 + l < 2 ^ 32
    → (ltb x 8 || not (h == x % 2 ^ 32)) ≡ false
size_agrees x h l e1 e2 b = ground arith

is_box :
    (w : Written)
    → Fits (box_of w)
    → (ltb (length (encode_box (box_of w))) 8
        || not (be (take 4 (encode_box (box_of w))) == length (encode_box (box_of w)) % 2 ^ 32))
      ≡ false
unfolding be_bytes encode_box append_box
is_box w f =
    size_agrees _ _ (length w.body) (length-append_box [] w.box_type w.body f.four)
      (be_four (8 + length w.body) f.size) f.size

pub property_bytes_of :
    (i : ℕ) (ws : List Written)
    → All Fits (boxes_of ws)
    → property_bytes i (properties_of ws)
      ≡ done (encode_boxes (boxes_of ws), association_bytes i ws)
unfolding property_bytes encode_boxes
property_bytes_of i [] h = refl
property_bytes_of i (w ∷ ws) (f, h) =
    rw (property_bytes, is_box w f, property_bytes_of (i + 1) ws h)
