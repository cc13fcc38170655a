-- ===== src/Heif/Items.antt =====
-- The items of media/heif/heif.go: `ItemByID`, `PrimaryItem` and `Data`.
-- A method of `File` that reads the metadata takes it as an argument, once `getMeta` has given it.
use go.Common.{
  ℕ, zero, suc, ◌+◌, ◌-◌, ◌*◌, ◌%◌, ◌^◌, Bool, true, false, not, Option, none, some, List, [], ◌∷◌,
  ◌++◌, ◌==◌, ltb, leb, ◌&&◌, ◌||◌, if◌then◌else◌, length, get_elem?, take, drop,
}
use go.Bmff.Stream.{ok, err}
use go.Bmff.Reader.{Box}
use go.Bmff.Boxes
use go.Bmff.Boxes.{
  ItemInfoEntry, ItemLocationBoxEntry, ItemLocationBox, OffsetLength, ItemProperty,
  ItemPropertyAssociation, ItemPropertyAssociationItem, ItemReference, Parsed,
}
use go.Bmff.Parse.{parse}
use go.Heif.File.{
  no_primary, unknown_item, no_location, unsupported, no_extents, extent_length, extent_offset,
  short_read, Outcome, done, fail, BoxMeta,
}

-- A property is its box, with what `Parse` made of it if that succeeded.
pub record Property : Type 0 where
  pub raw : Box
  pub parsed : Option Parsed

pub record Item : Type 0 where
  pub id : ℕ
  pub info : ItemInfoEntry
  pub location : Option ItemLocationBoxEntry
  pub properties : List Property

-- Both loops of `ItemByID` keep the last match.
unfoldable pub last_location : ℕ → List ItemLocationBoxEntry → Option ItemLocationBoxEntry
last_location id [] = none
last_location id (e ∷ es) =
    let rest = last_location id es in
    elim rest [ some l ↦ some l | none ↦ if e.item_id == id then some e else none ]

unfoldable pub last_info : ℕ → List ItemInfoEntry → Option ItemInfoEntry
last_info id [] = none
last_info id (e ∷ es) =
    let rest = last_info id es in
    elim rest [ some i ↦ some i | none ↦ if e.item_id == id then some e else none ]

-- The associations with an index that is valid among `n` properties.
unfoldable pub valid_associations : ℕ → List ItemProperty → List ItemProperty
valid_associations n [] = []
valid_associations n (a ∷ as') =
    let rest = valid_associations n as' in
    if not (a.index == 0) && leb a.index n then a ∷ rest else rest

unfoldable pub entry_associations : ℕ → ℕ → List ItemPropertyAssociationItem → List ItemProperty
unfolding valid_associations
entry_associations id n [] = []
entry_associations id n (e ∷ es) =
    let rest = entry_associations id n es in
    if e.item_id == id then valid_associations n e.associations ++ rest else rest

-- The loop stops once a box has given anything.
unfoldable pub box_associations : ℕ → ℕ → List ItemPropertyAssociation → List ItemProperty
unfolding entry_associations
box_associations id n [] = []
box_associations id n (b ∷ bs) =
    let rest = box_associations id n bs in
    elim (entry_associations id n b.entries) [ [] ↦ rest | a ∷ as' ↦ a ∷ as' ]

unfoldable pub property_associations : BoxMeta → ℕ → List ItemProperty
unfolding box_associations
property_associations m id = elim m.properties [
  | none ↦ []
  | some p ↦ box_associations id (length p.property_container.properties) p.associations
]

abbrev pub container : BoxMeta → List Box
container m = elim m.properties [ none ↦ [] | some p ↦ p.property_container.properties ]

-- `Properties[ass.Index-1]`; an association that is left has an index in range.
unfoldable pub item_property : List Box → ItemProperty → List Property
item_property boxes a = elim (get_elem? boxes (a.index - 1)) [
  | none ↦ []
  | some b ↦ record { raw = b; parsed = elim (parse b) [ ok p ↦ some p | err _ ↦ none ] } ∷ []
]

unfoldable pub item_properties : List Box → List ItemProperty → List Property
unfolding item_property
item_properties boxes [] = []
item_properties boxes (a ∷ as') = item_property boxes a ++ item_properties boxes as'

unfoldable pub find_location : BoxMeta → ℕ → Option ItemLocationBoxEntry
unfolding last_location
find_location m id = elim m.item_location [ none ↦ none | some l ↦ last_location id l.items ]

unfoldable pub find_info : BoxMeta → ℕ → Option ItemInfoEntry
unfolding last_info
find_info m id = elim m.item_info [ none ↦ none | some i ↦ last_info id i.item_infos ]

unfoldable pub item_by_id : BoxMeta → ℕ → Outcome Item
item_by_id m id = elim (find_info m id) [
  | none ↦ fail unknown_item
  | some ie ↦ done (record {
    id = id;
    info = ie;
    location = find_location m id;
    properties = item_properties (container m) (property_associations m id);
  })
]

unfoldable pub primary_item : BoxMeta → Outcome Item
primary_item m = elim m.primary_item [ none ↦ fail no_primary | some p ↦ item_by_id m p.item_id ]

-- `Item.SpatialExtents` and `Item.Rotations`: the first property of the type.
unfoldable pub spatial_extents : List Property → Option (ℕ × ℕ)
spatial_extents [] = none
spatial_extents (p ∷ ps) = elim p.parsed [
  | some (Boxes.spatial_extents e) ↦ some (e.image_width, e.image_height)
  | _ ↦ spatial_extents ps
]

unfoldable pub rotations : List Property → ℕ
rotations [] = 0
rotations (p ∷ ps) = elim p.parsed [ some (Boxes.image_rotation r) ↦ r.angle | _ ↦ rotations ps ]

-- The loop of `VisualDimensions`.
unfoldable pub swap_times : ℕ → ℕ × ℕ → ℕ × ℕ
swap_times zero d = d
swap_times (suc n) (w, h) = swap_times n (h, w)

unfoldable pub visual_dimensions : Item → Option (ℕ × ℕ)
unfolding spatial_extents rotations swap_times
visual_dimensions it = elim (spatial_extents it.properties) [
  | none ↦ none
  | some d ↦ some (swap_times (rotations it.properties) d)
]

-- `ReadAt` of `n` bytes: an `io.EOF` where they are not all there.
unfoldable pub read_at : List ℕ → ℕ → ℕ → Option (List ℕ)
read_at ra n off = if leb (off + n) (length ra) then some (take n (drop off ra)) else none

abbrev pub max_item_data_size : ℕ
max_item_data_size = 64 * 2 ^ 20

-- The first loop of `Item.Data`: the lengths are not 0 and come to no more than the limit.
unfoldable pub extents_fit : ℕ → List OffsetLength → Bool
extents_fit total [] = true
extents_fit total (e ∷ es) =
    let rest = extents_fit (total + e.extent_length) es in
    if e.extent_length == 0 || ltb (max_item_data_size - total) e.extent_length then false else rest

-- The second: the extents' bytes, in order. The offset of an extent wraps at 64 bits.
unfoldable pub extent_data : List ℕ → ℕ → List OffsetLength → Outcome (List ℕ)
unfolding read_at
extent_data ra base [] = done []
extent_data ra base (e ∷ es) =
    let off = (base + e.offset) % 2 ^ 64 in
    let rest = extent_data ra base es in
    if ltb off base || ltb (2 ^ 63 - 1) off
    then fail extent_offset
    else elim (read_at ra e.extent_length off) [
      | none ↦ fail short_read
      | some part ↦ elim rest [ done more ↦ done (part ++ more) | fail x ↦ fail x ]
    ]

unfoldable pub item_data : List ℕ → Item → Outcome (List ℕ)
unfolding extents_fit extent_data
item_data ra it = elim it.location [
  | none ↦ fail no_location
  | some loc ↦
      if not (loc.construction_method == 0) || not (loc.data_reference_index == 0)
      then fail unsupported
      else if length loc.extents == 0
      then fail no_extents
      else if extents_fit 0 loc.extents
      then extent_data ra loc.base_offset loc.extents
      else fail extent_length
]
