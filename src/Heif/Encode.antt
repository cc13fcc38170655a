-- ===== src/Heif/Encode.antt =====
-- `EncodeImage` of media/heif/heif.go: a file with one item, its properties and its data.
pub mod Pieces
pub mod Properties
pub mod Meta
pub mod Stored
pub mod Loaded
pub mod Written
pub mod Assembled
pub mod ReadBack
use Prim.Native.Nat.{bit_and, bit_or}
use go.Common.{
  ℕ, zero, suc, ◌+◌, ◌-◌, ◌*◌, ◌%◌, ◌^◌, Bool, true, false, not, List, [], ◌∷◌, ◌++◌, ◌==◌, ltb,
  ◌||◌, if◌then◌else◌, length, take, replicate, Option, none, some,
}
use go.Bmff.Stream.{be}
use go.Bmff.Encode.{be_bytes}
use go.Bmff.Parser.{tag}
use go.Heif.File.{
  HeifErr, invalid_type, many_properties, not_a_box, large_image, Outcome, done, fail, ◌>>=◌,
}

-- `Property`, the argument of `EncodeImage`: a whole box, and whether decoders must support it.
pub record PropertyBox : Type 0 where
  pub box : List ℕ
  pub essential : Bool

-- `uint32(8+len(body))` keeps the low 32 bits, as `be_bytes 4` does.
unfoldable pub append_box : List ℕ → List ℕ → List ℕ → List ℕ
append_box dst typ body = dst ++ (be_bytes 4 (8 + length body) ++ (typ ++ body))

unfoldable pub spatial_extents_property : ℕ → ℕ → PropertyBox
unfolding append_box be_bytes
spatial_extents_property width height = record {
  box = append_box [] (tag "ispe") (replicate 4 0 ++ (be_bytes 4 width ++ be_bytes 4 height));
  essential = false;
}

-- `byte(quarterTurns & 3)`, for a number of turns that is not negative.
unfoldable pub rotation_property : ℕ → PropertyBox
unfolding append_box be_bytes
rotation_property quarter_turns = record {
  box = append_box [] (tag "irot") (bit_and quarter_turns 3 ∷ []);
  essential = true;
}

-- The loop over the properties: the boxes, and an association byte for each, from index `i` on.
unfoldable pub property_bytes : ℕ → List PropertyBox → Outcome (List ℕ × List ℕ)
property_bytes i [] = done ([], [])
property_bytes i (p ∷ ps) =
    let rest = property_bytes (i + 1) ps in
    let v = if p.essential then bit_or ((i + 1) % 2 ^ 8) 0x80 else (i + 1) % 2 ^ 8 in
    if ltb (length p.box) 8 || not (be (take 4 p.box) == length p.box % 2 ^ 32)
    then fail not_a_box
    else elim rest [ done (ipco, ipma) ↦ done (p.box ++ ipco, v ∷ ipma) | fail e ↦ fail e ]

unfoldable pub ftyp_body : List ℕ → List ℕ
ftyp_body brand = brand ++ (replicate 4 0 ++ (tag "mif1" ++ brand))

-- Version and flags, pre_defined, the type, reserved bytes and an empty name.
unfoldable pub hdlr_body : List ℕ
hdlr_body = replicate 8 0 ++ (tag "pict" ++ replicate 13 0)

unfoldable pub pitm_body : List ℕ
unfolding be_bytes
pitm_body = replicate 4 0 ++ be_bytes 2 1

unfoldable pub infe_body : List ℕ → List ℕ
unfolding be_bytes
infe_body item_type =
    (2 ∷ 0 ∷ 0 ∷ 0 ∷ []) ++ (be_bytes 2 1 ++ (be_bytes 2 0 ++ (item_type ++ (0 ∷ []))))

unfoldable pub iinf_body : List ℕ → List ℕ
unfolding infe_body append_box
iinf_body item_type = append_box (replicate 4 0 ++ be_bytes 2 1) (tag "infe") (infe_body item_type)

-- `assoc`: one entry of item 1, with 8-bit indexes.
unfoldable pub ipma_body : List ℕ → List ℕ
unfolding be_bytes
ipma_body ipma = replicate 4 0 ++ (be_bytes 4 1 ++ (be_bytes 2 1 ++ ((length ipma % 2 ^ 8) ∷ ipma)))

unfoldable pub iprp_body : List ℕ → List ℕ → List ℕ
unfolding append_box ipma_body
iprp_body ipco ipma = append_box (append_box [] (tag "ipco") ipco) (tag "ipma") (ipma_body ipma)

-- Version 0, 4-byte offsets and lengths, no base offset; one item of one extent.
unfoldable pub iloc_body : ℕ → ℕ → List ℕ
unfolding be_bytes
iloc_body off n =
    (0 ∷ 0 ∷ 0 ∷ 0 ∷ 0x44 ∷ 0 ∷ [])
    ++ (be_bytes 2 1
        ++ (be_bytes 2 1 ++ (be_bytes 2 0 ++ (be_bytes 2 1 ++ (be_bytes 4 off ++ be_bytes 4 n)))))

unfoldable pub meta_body : List ℕ → List ℕ → List ℕ → ℕ → ℕ → List ℕ
unfolding append_box hdlr_body pitm_body iinf_body iloc_body iprp_body
meta_body item_type ipco ipma off n =
    append_box
      (append_box
        (append_box
          (append_box (append_box (replicate 4 0) (tag "hdlr") hdlr_body) (tag "pitm") pitm_body)
          (tag "iinf") (iinf_body item_type))
        (tag "iloc") (iloc_body off n))
      (tag "iprp") (iprp_body ipco ipma)

-- `buildMeta`
unfoldable pub build_meta : List ℕ → List ℕ → List ℕ → ℕ → ℕ → List ℕ
unfolding meta_body
build_meta item_type ipco ipma off n =
    append_box [] (tag "meta") (meta_body item_type ipco ipma off n)

-- The end of `EncodeImage`, with the properties encoded.
unfoldable pub assemble : List ℕ → List ℕ → List ℕ → List ℕ → List ℕ → Outcome (List ℕ)
unfolding build_meta ftyp_body
assemble brand item_type ipco ipma bytes =
    let out = append_box [] (tag "ftyp") (ftyp_body brand) in
    let n = length bytes in
    let data_off = length out + length (build_meta item_type ipco ipma 0 n) + 8 in
    if ltb (2 ^ 32 - 1) (data_off + n)
    then fail large_image
    else done (append_box (out ++ build_meta item_type ipco ipma data_off n) (tag "mdat") bytes)

unfoldable pub encode_image : List ℕ → List ℕ → List PropertyBox → List ℕ → Outcome (List ℕ)
unfolding property_bytes assemble
encode_image brand item_type props bytes =
    if not (length brand == 4) || not (length item_type == 4)
    then fail invalid_type
    else if ltb 0x7f (length props)
    then fail many_properties
    else elim (property_bytes 0 props) [
      | done (ipco, ipma) ↦ assemble brand item_type ipco ipma bytes
      | fail e ↦ fail e
    ]
