-- ===== src/Heif/Derived.antt =====
-- What media/heif/heif.go derives from the items: `EXIF`, `Thumbnails` and `StandaloneHEIF`.
-- The metadata is an argument here too, once `getMeta` has given it.
use go.Common.{
  ℕ, ◌+◌, ◌-◌, ◌*◌, ◌%◌, ◌^◌, Bool, false, Option, none, some, List, [], ◌∷◌, ◌==◌, ltb, leb, ◌&&◌,
  ◌||◌, if◌then◌else◌, length, get_elem?,
}
use go.Bmff.Reader.{Box}
use go.Bmff.Boxes.{ItemInfoEntry, ItemLocationBoxEntry, OffsetLength, ItemProperty, ItemReference}
use go.Bmff.Parser.{tag, same_bytes}
use go.Heif.File.{
  no_exif, exif_location, exif_count, exif_large, exif_small, not_coded, short_read, Outcome, done,
  fail, ◌>>=◌, BoxMeta,
}
use go.Heif.Items.{Item, item_by_id, item_data, read_at, property_associations, container}
use go.Heif.Encode.{PropertyBox, append_box, encode_image}

unfoldable pub first_exif : List ItemInfoEntry → ℕ
first_exif [] = 0
first_exif (e ∷ es) = if same_bytes e.item_type (tag "Exif") then e.item_id else first_exif es

-- `EXIFItemID`
unfoldable pub exif_item_id : BoxMeta → ℕ
unfolding first_exif
exif_item_id m = elim m.item_info [ none ↦ 0 | some i ↦ first_exif i.item_infos ]

abbrev pub max_exif_size : ℕ
max_exif_size = 20 * 2 ^ 10

-- The offset wraps at 64 bits, as an `int64` does when 4 is added; a negative one cannot be read.
unfoldable pub exif_extent : List ℕ → ℕ → OffsetLength → Outcome (List ℕ)
unfolding read_at
exif_extent ra base e =
    let pos = (base + e.offset + 4) % 2 ^ 64 in
    if ltb max_exif_size e.extent_length
    then fail exif_large
    else if ltb e.extent_length 4
    then fail exif_small
    else if leb (2 ^ 63) pos
    then fail short_read
    else elim (read_at ra (e.extent_length - 4) pos) [
      | none ↦ fail short_read
      | some buf ↦ done buf
    ]

unfoldable pub exif_at : List ℕ → Option ItemLocationBoxEntry → Outcome (List ℕ)
unfolding exif_extent
exif_at ra none = fail exif_location
exif_at ra (some loc) = elim loc.extents [
  | e ∷ [] ↦ exif_extent ra loc.base_offset e
  | _ ↦ fail exif_count
]

unfoldable pub exif : List ℕ → BoxMeta → Outcome (List ℕ)
unfolding exif_item_id exif_at
exif ra m =
    if exif_item_id m == 0
    then fail no_exif
    else do it ← item_by_id m (exif_item_id m); exif_at ra it.location

-- `slices.Contains`
abbrev pub contains : List ℕ → ℕ → Bool
contains [] id = false
contains (x ∷ xs) id = x == id || contains xs id

unfoldable pub thumbnail_items : BoxMeta → ℕ → List ItemReference → Outcome (List Item)
thumbnail_items m id [] = done []
thumbnail_items m id (ref ∷ refs) =
    let rest = thumbnail_items m id refs in
    if same_bytes ref.ref_type (tag "thmb") && contains ref.to_item_ids id
    then (do thumb ← item_by_id m ref.from_item_id; thumbs ← rest; done (thumb ∷ thumbs))
    else rest

unfoldable pub thumbnails : BoxMeta → Item → Outcome (List Item)
unfolding thumbnail_items
thumbnails m it = elim m.item_reference [
  | none ↦ done []
  | some r ↦ thumbnail_items m it.id r.references
]

unfoldable pub major_brand : BoxMeta → List ℕ
major_brand m = elim m.file_type [
  | none ↦ tag "heic"
  | some ft ↦ if length ft.major_brand == 4 then ft.major_brand else tag "heic"
]

-- The item types of which there is no standalone file.
unfoldable pub is_derived : List ℕ → Bool
is_derived ty =
    same_bytes ty (tag "grid")
    || (same_bytes ty (tag "iden")
        || (same_bytes ty (tag "iovl")
            || (same_bytes ty (tag "Exif")
                || (same_bytes ty (tag "mime") || same_bytes ty (tag "uri ")))))

-- An association with no box is passed over.
unfoldable pub standalone_properties : List Box → List ItemProperty → List PropertyBox
unfolding append_box
standalone_properties boxes [] = []
standalone_properties boxes (a ∷ as') =
    let rest = standalone_properties boxes as' in
    if a.index == 0 then rest else elim (get_elem? boxes (a.index - 1)) [
      | none ↦ rest
      | some b ↦
          record { box = append_box [] b.header.box_type b.slurp; essential = a.essential } ∷ rest
    ]

unfoldable pub standalone_heif : List ℕ → BoxMeta → Item → Outcome (List ℕ)
unfolding major_brand is_derived standalone_properties
standalone_heif ra m it = if is_derived it.info.item_type then fail not_coded else do
  contents ← item_data ra it
  encode_image (major_brand m) it.info.item_type
      (standalone_properties (container m) (property_associations m it.id)) contents
