-- ===== src/Bmff/Parse.antt =====
-- `Parse` of media/heif/bmff/bmff.go: the table of parsers, and the boxes that hold other boxes.
pub mod Leaf
pub mod Tables
pub mod Lists
use go.Common.{
  ℕ, zero, suc, ◌+◌, Bool, true, false, Option, none, some, List, [], ◌∷◌, ◌++◌, ◌&&◌, ltb,
  if◌then◌else◌, length, take, drop,
}
use Prim.Native.String.{String}
use go.Bmff.Stream.{
  Err, eof, stuck, unknown_box, item_info, few_children, first_child, child, no_container,
  no_association, Result, ok, err, Stream, peek,
}
use go.Bmff.Fields.{BufReader, read_uint16, read_uint32}
use go.Bmff.Reader.{Box}
use go.Bmff.Boxes
use go.Bmff.Boxes.{
  FullBox, MetaBox, ItemInfoEntry, ItemInfoBox, ItemPropertyAssociation, ItemPropertyContainerBox,
  ItemPropertiesBox, DataInformationBox, DataReferenceBox, Parsed, item_info_entry,
  property_container, property_association,
}
use go.Bmff.Parser.{
  P, ◌>>=◌, ◌>>◌, pure, throw, lift, check, tag, same_bytes, read_full_box, child_boxes,
}
use Leaf.{
  parse_file_type, parse_item_info_entry, parse_spatial_extents, parse_handler, parse_primary_item,
  parse_image_rotation, parse_movie_header, parse_data,
}
use Tables.{parse_item_property_association, parse_item_location, parse_item_reference}
use Lists.{parse_keys, parse_item_list}

-- A QuickTime "meta" box starts with its "hdlr" child.
unfoldable pub is_quick_time : BufReader → Bool
is_quick_time br = elim (peek 8 br.stream) [
  | ok buf ↦ same_bytes (take 4 (drop 4 buf)) (tag "hdlr")
  | err _ ↦ false
]

unfoldable pub meta_full_box : P (FullBox × Bool)
unfolding is_quick_time
meta_full_box br =
    if is_quick_time br
    then ok ((record { version = 0; flags = 0 }, true), br)
    else elim (read_full_box br) [ ok (full, br') ↦ ok ((full, false), br') | err e ↦ err e ]

unfoldable pub parse_meta : P MetaBox
unfolding meta_full_box
parse_meta = do
  head ← meta_full_box
  children ← child_boxes
  pure (record { full = head.0; quick_time = head.1; children = children })

unfoldable pub parse_property_container : P ItemPropertyContainerBox
parse_property_container = do boxes ← child_boxes; pure (record { properties = boxes })

unfoldable pub parse_data_information : P DataInformationBox
parse_data_information = do boxes ← child_boxes; pure (record { children = boxes })

unfoldable pub parse_data_reference : P DataReferenceBox
parse_data_reference = do
  full ← read_full_box
  count ← lift read_uint32
  boxes ← child_boxes
  pure (record { full = full; entry_count = count; children = boxes })

-- The boxes below parse their children: `parse` is `Parse` for those.
module _ (parse : Box → Result Parsed) where
  -- Children of other types are parsed too, and left out.
  unfoldable pub info_entries : List Box → Result (List ItemInfoEntry)
  info_entries [] = ok []
  info_entries (b ∷ bs) =
      let rest = info_entries bs in
      elim (parse b) [
        | ok (item_info_entry ie) ↦ elim rest [ ok ies ↦ ok (ie ∷ ies) | err e ↦ err e ]
        | ok _ ↦ rest
        | err e ↦ err (item_info e)
      ]

  unfoldable pub parse_item_info : P ItemInfoBox
  unfolding info_entries
  parse_item_info = do
    full ← read_full_box
    count ← lift read_uint16
    boxes ← child_boxes
    infos ← λ br. elim (info_entries boxes) [ ok ies ↦ ok (ies, br) | err e ↦ err e ]
    pure (record { full = full; count = count; item_infos = infos })

  unfoldable pub associations : List Box → Result (List ItemPropertyAssociation)
  associations [] = ok []
  associations (b ∷ bs) =
      let rest = associations bs in
      elim (parse b) [
        | ok (property_association a) ↦ elim rest [ ok as' ↦ ok (a ∷ as') | err e ↦ err e ]
        | ok _ ↦ err no_association
        | err e ↦ err (child e)
      ]

  unfoldable pub item_properties_of : List Box → Result ItemPropertiesBox
  unfolding associations
  item_properties_of (c ∷ b ∷ bs) = elim (parse c) [
    | ok (property_container pc) ↦ elim (associations (b ∷ bs)) [
      | ok as' ↦ ok (record { property_container = pc; associations = as' })
      | err e ↦ err e
    ]
    | ok _ ↦ err no_container
    | err e ↦ err (child e)
  ]
  item_properties_of _ = err few_children

  unfoldable pub parse_item_properties : P ItemPropertiesBox
  unfolding item_properties_of
  parse_item_properties = do
    boxes ← child_boxes
    λ br. elim (item_properties_of boxes) [ ok ip ↦ ok (ip, br) | err e ↦ err e ]

abbrev pub as_box : {A : Type 0} → (A → Parsed) → P A → P Parsed
as_box c m = do a ← m; pure (c a)

-- The map `parsers`.
abbrev pub parsers : (Box → Result Parsed) → List (List ℕ × P Parsed)
parsers parse =
    (tag "data", as_box Boxes.data_box parse_data)
    ∷ (tag "dinf", as_box Boxes.data_information parse_data_information)
    ∷ (tag "dref", as_box Boxes.data_reference parse_data_reference)
    ∷ (tag "ftyp", as_box Boxes.file_type parse_file_type)
    ∷ (tag "hdlr", as_box Boxes.handler parse_handler)
    ∷ (tag "iinf", as_box Boxes.item_info (parse_item_info parse))
    ∷ (tag "ilst", as_box Boxes.item_list parse_item_list)
    ∷ (tag "infe", as_box Boxes.item_info_entry parse_item_info_entry)
    ∷ (tag "iloc", as_box Boxes.item_location parse_item_location)
    ∷ (tag "ipco", as_box Boxes.property_container parse_property_container)
    ∷ (tag "ipma", as_box Boxes.property_association parse_item_property_association)
    ∷ (tag "iprp", as_box Boxes.item_properties (parse_item_properties parse))
    ∷ (tag "iref", as_box Boxes.item_reference parse_item_reference)
    ∷ (tag "irot", as_box Boxes.image_rotation parse_image_rotation)
    ∷ (tag "ispe", as_box Boxes.spatial_extents parse_spatial_extents)
    ∷ (tag "keys", as_box Boxes.metadata_keys parse_keys)
    ∷ (tag "meta", as_box Boxes.meta parse_meta)
    ∷ (tag "mvhd", as_box Boxes.movie_header parse_movie_header)
    ∷ (tag "pitm", as_box Boxes.primary_item parse_primary_item)
    ∷ []

abbrev pub find_parser : List ℕ → List (List ℕ × P Parsed) → Option (P Parsed)
find_parser ty [] = none
find_parser ty ((t, p) ∷ ps) = if same_bytes ty t then some p else find_parser ty ps

-- What `Parse` makes of a parser's answer.
abbrev pub run_parser : Option (P Parsed) → Stream → Result Parsed
run_parser none s = err unknown_box
run_parser (some p) s = elim (p (record { stream = s; sticky = none })) [
  | ok (box, _) ↦ ok box
  | err e ↦ err e
]

-- `Parse` of a box with the given type and body. Parsers of children get one unit of fuel less.
unfoldable pub parse_body : ℕ → List ℕ → Stream → Result Parsed
parse_body zero ty s = err stuck
parse_body (suc fuel) ty s =
    run_parser
      (find_parser ty (
        parsers (λ b. parse_body fuel b.header.box_type (record { bytes = b.slurp; fault = eof }))))
      s

-- `Parse` of a box whose body is in memory, as a child of a box that is parsed.
abbrev pub parse_child : ℕ → Box → Result Parsed
parse_child fuel b = parse_body fuel b.header.box_type (record { bytes = b.slurp; fault = eof })

-- A body holds a header of eight bytes for each box inside another: its length is enough fuel.
unfoldable pub parse : Box → Result Parsed
unfolding parse_body
parse b = parse_child (suc (length b.slurp)) b
