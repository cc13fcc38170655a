-- ===== src/Bmff/Parse/Tables.antt =====
-- The parsers of media/heif/bmff/bmff.go and quicktime.go whose boxes hold counted tables.
use Prim.Native.Nat.{bit_and, bit_or}
use go.Common.{
  ℕ, zero, suc, ◌-◌, ◌*◌, ◌/◌, ◌^◌, Bool, not, none, List, [], ◌∷◌, ◌==◌, ltb, if◌then◌else◌,
}
use go.Bmff.Stream.{eof, item_reference, Result, ok, err}
use go.Bmff.Fields.{BufReader, read_uint8, read_uint16, read_uint32, read_uint_n}
use go.Bmff.Reader.{Box}
use go.Bmff.Boxes.{
  FullBox, ItemProperty, ItemPropertyAssociationItem, ItemPropertyAssociation, OffsetLength,
  ItemLocationBoxEntry, ItemLocationBox, ItemReference, ItemReferenceBox,
}
use go.Bmff.Parser.{
  P, ◌>>=◌, ◌>>◌, pure, lift, check, peek_bytes, discard_bytes, while_ok, read_full_box,
  child_boxes,
}

-- `if cond { ... }` round a field that is read only then, with its zero value otherwise.
abbrev pub field_if : Bool → P ℕ → P ℕ
field_if b m = if b then m else pure 0

-- One association: the top bit of the first byte, and an index of 7 or, by the flags, 15 bits.
unfoldable pub association : FullBox → P ItemProperty
association full = do
  first ← lift read_uint8
  let essential = not (bit_and first 0x80 == 0)
  let low = first - bit_and first 0x80
  let wide = not (bit_and full.flags 1 == 0)
  second ← field_if wide (lift read_uint8)
  pure (record { essential = essential; index = if wide then bit_or (low * 2 ^ 8) second else low })

unfoldable pub association_list : ℕ → FullBox → P (List ItemProperty)
unfolding association
association_list zero full = pure []
association_list (suc n) full =
    while_ok [] (do a ← association full; as' ← association_list n full; pure (a ∷ as'))

unfoldable pub association_item : FullBox → P ItemPropertyAssociationItem
unfolding association_list
association_item full = do
  item_id ← (if ltb full.version 1 then lift read_uint16 else lift read_uint32)
  count ← lift read_uint8
  associations ← association_list count full
  pure (record { item_id = item_id; associations_count = count; associations = associations })

unfoldable pub association_items : ℕ → FullBox → P (List ItemPropertyAssociationItem)
unfolding association_item
association_items zero full = pure []
association_items (suc n) full =
    while_ok [] (do e ← association_item full; es ← association_items n full; pure (e ∷ es))

unfoldable pub parse_item_property_association : P ItemPropertyAssociation
unfolding association_items
parse_item_property_association = do
  full ← read_full_box
  count ← lift read_uint32
  entries ← association_items count full
  check
  pure (record { full = full; entry_count = count; entries = entries })

-- The sizes of an "iloc" box's fields, in bytes.
pub record Sizes : Type 0 where
  pub offset : ℕ
  pub extent_length : ℕ
  pub base_offset : ℕ
  pub index : ℕ

-- An error inside an extent is returned at once.
unfoldable pub extent : FullBox → Sizes → P OffsetLength
extent full sz = do
  _ ← field_if (ltb 0 full.version) (lift (read_uint_n (sz.index * 8)))
  offset ← lift (read_uint_n (sz.offset * 8))
  extent_length ← lift (read_uint_n (sz.extent_length * 8))
  check
  pure (record { offset = offset; extent_length = extent_length })

unfoldable pub extent_list : ℕ → FullBox → Sizes → P (List OffsetLength)
unfolding extent
extent_list zero full sz = pure []
extent_list (suc n) full sz =
    while_ok [] (do e ← extent full sz; es ← extent_list n full sz; pure (e ∷ es))

unfoldable pub location_entry : FullBox → Sizes → P ItemLocationBoxEntry
unfolding extent_list
location_entry full sz = do
  item_id ← (if ltb full.version 2 then lift read_uint16 else lift read_uint32)
  method ← field_if (ltb 0 full.version) (lift read_uint16)
  reference ← lift read_uint16
  base ← lift (read_uint_n (sz.base_offset * 8))
  count ← lift read_uint16
  extents ← extent_list count full sz
  pure (record {
    item_id = item_id;
    construction_method = bit_and method 15;
    data_reference_index = reference;
    base_offset = base;
    extent_count = count;
    extents = extents;
  })

unfoldable pub location_entries : ℕ → FullBox → Sizes → P (List ItemLocationBoxEntry)
unfolding location_entry
location_entries zero full sz = pure []
location_entries (suc n) full sz =
    while_ok [] (do e ← location_entry full sz; es ← location_entries n full sz; pure (e ∷ es))

-- The nibbles of the two bytes behind the full box header.
unfoldable pub sizes_of : FullBox → List ℕ → Sizes
sizes_of full (a ∷ b ∷ _) = record {
  offset = a / 2 ^ 4;
  extent_length = bit_and a 15;
  base_offset = b / 2 ^ 4;
  index = if ltb 0 full.version then bit_and b 15 else 0;
}
sizes_of full _ = record { offset = 0; extent_length = 0; base_offset = 0; index = 0 }

-- Four bytes are peeked for the sizes, and two of them discarded.
unfoldable pub parse_item_location : P ItemLocationBox
unfolding sizes_of location_entries
parse_item_location = do
  full ← read_full_box
  buf ← peek_bytes 4
  let sz = sizes_of full buf
  discard_bytes 2
  count ← (if ltb full.version 2 then lift read_uint16 else lift read_uint32)
  items ← location_entries count full sz
  check
  pure (record {
    full = full;
    offset_size = sz.offset;
    length_size = sz.extent_length;
    base_offset_size = sz.base_offset;
    index_size = sz.index;
    item_count = count;
    items = items;
  })

-- `readID` of `parseItemReferenceBox`.
abbrev pub read_id : FullBox → BufReader → ℕ × BufReader
read_id full = if full.version == 0 then read_uint16 else read_uint32

unfoldable pub id_list : ℕ → FullBox → P (List ℕ)
id_list zero full = pure []
id_list (suc n) full =
    while_ok [] (do i ← lift (read_id full); is' ← id_list n full; pure (i ∷ is'))

unfoldable pub reference_fields : FullBox → List ℕ → P ItemReference
unfolding id_list
reference_fields full ref_type = do
  from ← lift (read_id full)
  n ← lift read_uint16
  to ← id_list n full
  check
  pure (record { ref_type = ref_type; from_item_id = from; to_item_ids = to })

-- Each reference is read from the body of its own box.
unfoldable pub references_of : FullBox → List Box → Result (List ItemReference)
unfolding reference_fields
references_of full [] = ok []
references_of full (b ∷ bs) =
    let rest = references_of full bs in
    elim (reference_fields full b.header.box_type body) [
      | ok (ref, _) ↦ elim rest [ ok refs ↦ ok (ref ∷ refs) | err e ↦ err e ]
      | err e ↦ err (item_reference e)
    ]
  where
    body : BufReader
    body = record { stream = record { bytes = b.slurp; fault = eof }; sticky = none }

unfoldable pub parse_item_reference : P ItemReferenceBox
unfolding references_of
parse_item_reference = do
  full ← read_full_box
  boxes ← child_boxes
  refs ← λ br. elim (references_of full boxes) [ ok refs ↦ ok (refs, br) | err e ↦ err e ]
  pure (record { full = full; references = refs })
