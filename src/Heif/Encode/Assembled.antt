-- ===== src/Heif/Encode/Assembled.antt =====
-- What `EncodeImage` of media/heif/heif.go puts together, and where the data of the one item are.
use go.Common.{
  ℕ, suc, ◌+◌, ◌-◌, ◌^◌, ◌≤◌, ◌<◌, ◌≡◌, refl, arith, List, [], ◌∷◌, ◌++◌, append-nil, length,
  length-append, drop-length_append, take_of_le, ltb, Bool-cases, inl, inr,
}
use go.Bmff.Fields.{skip}
use go.Bmff.Stream.{peek, eof, ok}
use go.Bmff.Encode.{Item, be_bytes}
use go.Bmff.Reader.Items.{stream_of}
use go.Bmff.Boxes
use go.Bmff.Boxes.{FileTypeBox, ItemInfoEntry}
use go.Bmff.Parser.{tag}
use go.Bmff.Parse.{parse_body}
use go.Bmff.Parse.Leaf.{parse_file_type, compatible_brands}
use go.Heif.File.{done}
use go.Heif.Items
use go.Heif.Items.{
  primary_item, item_by_id, find_info, find_location, last_info, last_location, item_data,
  extents_fit, extent_data, read_at, max_item_data_size, property_associations, item_properties,
  container,
}
use go.Heif.Encode.{append_box, ftyp_body, meta_body, build_meta, assemble}
use go.Heif.Encode.Pieces.{length-append_box}
use go.Heif.Encode.Meta.{length-meta_body}
use go.Heif.Encode.Stored.{one_item}

-- The item that `PrimaryItem` gives.
abbrev pub item_of : FileTypeBox → ItemInfoEntry → List Item → List ℕ → ℕ → ℕ → Items.Item
item_of ft ie its ipma off n = record {
  id = 1;
  info = ie;
  location = find_location (one_item ft ie its ipma off n) 1;
  properties =
      item_properties (container (one_item ft ie its ipma off n))
        (property_associations (one_item ft ie its ipma off n) 1);
}

pub primary_item_one :
    (ft : FileTypeBox) (ie : ItemInfoEntry) (its : List Item) (ipma : List ℕ) (off n : ℕ)
    → ie.item_id ≡ 1
    → primary_item (one_item ft ie its ipma off n) ≡ done (item_of ft ie its ipma off n)
unfolding primary_item item_by_id find_info last_info
primary_item_one ft ie its ipma off n e = ground (arith, e)

pub item_data_one :
    (ft : FileTypeBox) (ie : ItemInfoEntry) (its : List Item) (ipma front bytes : List ℕ)
    → 0 < length bytes
    → length bytes ≤ max_item_data_size
    → length front < 2 ^ 32
    → item_data (front ++ bytes) (item_of ft ie its ipma (length front) (length bytes)) ≡ done bytes
unfolding item_data extents_fit extent_data read_at find_location last_location
item_data_one ft ie its ipma front bytes h0 h1 h2 = ground (
  arith,
  length-append front bytes,
  drop-length_append front bytes,
  take_of_le (length bytes) bytes,
  append-nil bytes,
)

pub parse_body_ftyp :
    (b0 b1 b2 b3 : ℕ)
    → (ft : FileTypeBox) × ((fuel : ℕ)
        → parse_body (suc fuel) (tag "ftyp") (stream_of (ftyp_body (b0 ∷ b1 ∷ b2 ∷ b3 ∷ [])) eof)
          ≡ ok (Boxes.file_type ft))
unfolding parse_body parse_file_type compatible_brands ftyp_body peek skip
parse_body_ftyp b0 b1 b2 b3 = (
  record {
    major_brand = b0 ∷ b1 ∷ b2 ∷ b3 ∷ [];
    minor_version = 0 ∷ 0 ∷ 0 ∷ 0 ∷ [];
    compatible = tag "mif1" ∷ (b0 ∷ b1 ∷ b2 ∷ b3 ∷ []) ∷ [];
  },
  λ fuel. refl,
)

-- The file up to the "mdat" box.
abbrev pub front_of : List ℕ → List ℕ → List ℕ → List ℕ → ℕ → ℕ → List ℕ
front_of brand item_type ipco ipma off n =
    append_box [] (tag "ftyp") (ftyp_body brand) ++ build_meta item_type ipco ipma off n

abbrev pub mdat_head : ℕ → List ℕ
mdat_head n = be_bytes 4 (8 + n) ++ tag "mdat"

abbrev pub offset_of : List ℕ → List ℕ → List ℕ → List ℕ → ℕ → ℕ
offset_of brand item_type ipco ipma n =
    length (append_box [] (tag "ftyp") (ftyp_body brand))
    + length (build_meta item_type ipco ipma 0 n)
    + 8

pub length-ftyp_body : (b0 b1 b2 b3 : ℕ) → length (ftyp_body (b0 ∷ b1 ∷ b2 ∷ b3 ∷ [])) ≡ 16
unfolding ftyp_body
length-ftyp_body b0 b1 b2 b3 = refl

pub length-front_of :
    (b0 b1 b2 b3 a b c d off n : ℕ) (ipco ipma : List ℕ)
    → length (front_of (b0 ∷ b1 ∷ b2 ∷ b3 ∷ []) (a ∷ b ∷ c ∷ d ∷ []) ipco ipma off n)
      ≡ length ipco + length ipma + 183
unfolding build_meta
length-front_of b0 b1 b2 b3 a b c d off n ipco ipma = omega (
  arith,
  length-append (append_box [] (tag "ftyp") (ftyp_body (b0 ∷ b1 ∷ b2 ∷ b3 ∷ [])))
      (build_meta (a ∷ b ∷ c ∷ d ∷ []) ipco ipma off n),
  length-append_box [] (tag "ftyp") (ftyp_body (b0 ∷ b1 ∷ b2 ∷ b3 ∷ [])) refl,
  length-append_box [] (tag "meta") (meta_body (a ∷ b ∷ c ∷ d ∷ []) ipco ipma off n) refl,
  length-meta_body a b c d off n ipco ipma,
  length-ftyp_body b0 b1 b2 b3,
)

pub assemble_done :
    (brand item_type ipco ipma bytes file : List ℕ)
    → assemble brand item_type ipco ipma bytes ≡ done file
    → (offset_of brand item_type ipco ipma (length bytes) + length bytes < 2 ^ 32)
      × (file
          ≡ front_of brand item_type ipco ipma
              (offset_of brand item_type ipco ipma (length bytes))
              (length bytes)
            ++ (mdat_head (length bytes) ++ bytes))
unfolding assemble append_box
assemble_done brand item_type ipco ipma bytes file e =
    elim (Bool-cases
      (ltb (2 ^ 32 - 1) (offset_of brand item_type ipco ipma (length bytes) + length bytes))) [
        | inl large ↦ absurd (ground (arith, large, e))
        | inr fits ↦ (ground arith, ground (arith, fits, e))
      ]
