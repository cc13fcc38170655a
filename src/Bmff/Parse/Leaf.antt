-- ===== src/Bmff/Parse/Leaf.antt =====
-- The parsers of media/heif/bmff/bmff.go and quicktime.go for boxes of fixed fields and texts.
use Prim.Native.Nat.{bit_and}
use go.Common.{ℕ, none, some, List, [], ◌∷◌, ◌==◌, if◌then◌else◌, take, drop}
use go.Bmff.Stream.{eof, infe_version, mvhd_version, short_data, ok, err, split_zero}
use go.Bmff.Fields.{
  trim_zero, any_remain, read_uint8, read_uint16, read_uint32, read_uint_n, read_string,
}
use go.Bmff.Boxes.{
  FullBox, FileTypeBox, ItemInfoEntry, ImageSpatialExtentsProperty, HandlerBox, PrimaryItemBox,
  ImageRotation, MovieHeaderBox, DataBox,
}
use go.Bmff.Parser.{
  P, ◌>>=◌, ◌>>◌, pure, throw, lift, check, peek_bytes, discard_bytes, tag, same_bytes,
  read_full_box,
}

-- The loop of `parseFileTypeBox` over what is left: four bytes a brand, and fewer than four end it.
unfoldable pub brands : List ℕ → List (List ℕ)
brands (a ∷ b ∷ c ∷ d ∷ rest) = (a ∷ b ∷ c ∷ d ∷ []) ∷ brands rest
brands _ = []

-- `io.EOF` ends the loop with the box, any other error without it.
unfoldable pub compatible_brands : P (List (List ℕ))
unfolding brands
compatible_brands br = elim br.stream.fault [
  | eof ↦ ok (brands br.stream.bytes, record br { stream = record br.stream { bytes = [] } })
  | e ↦ err e
]

unfoldable pub parse_file_type : P FileTypeBox
unfolding compatible_brands
parse_file_type = do
  buf ← peek_bytes 8
  discard_bytes 8
  compatible ← compatible_brands
  pure (record {
    major_brand = take 4 buf;
    minor_version = take 4 (drop 4 buf);
    compatible = compatible;
  })

-- The texts of an "infe" box by its item type.
unfoldable pub mime_texts : P (List ℕ × List ℕ)
mime_texts br =
    let (content, br') = read_string br in
    if any_remain br'
    then (let (encoding, br'') = read_string br' in ok ((content, encoding), br''))
    else ok ((content, []), br')

unfoldable pub entry_texts : ItemInfoEntry → P ItemInfoEntry
unfolding mime_texts
entry_texts ie =
    if same_bytes ie.item_type (tag "mime")
    then (do
      texts ← mime_texts
      pure (record ie { content_type = texts.0; content_encoding = texts.1 }))
    else if same_bytes ie.item_type (tag "uri ")
    then (do uri ← lift read_string; pure (record ie { item_uri_type = uri }))
    else pure ie

-- `parseItemInfoEntry`. The item type is peeked and not discarded.
unfoldable pub item_info_fields : FullBox → P ItemInfoEntry
item_info_fields full = do
  item_id ← lift read_uint16
  protection_index ← lift read_uint16
  check
  item_type ← peek_bytes 4
  name ← lift read_string
  ie ← entry_texts (record {
    full = full;
    item_id = item_id;
    protection_index = protection_index;
    item_type = item_type;
    name = name;
    content_type = [];
    content_encoding = [];
    item_uri_type = [];
  })
  check
  pure ie

unfoldable pub parse_item_info_entry : P ItemInfoEntry
parse_item_info_entry = do
  full ← read_full_box
  if full.version == 2 then item_info_fields full else throw (infe_version full.version)

unfoldable pub parse_spatial_extents : P ImageSpatialExtentsProperty
parse_spatial_extents = do
  full ← read_full_box
  w ← lift read_uint32
  check
  h ← lift read_uint32
  check
  pure (record { full = full; image_width = w; image_height = h })

-- `ReadString(0)`, where the end of the body is no error.
unfoldable pub handler_name : P (List ℕ)
handler_name br = elim (split_zero stream.bytes) [
  | some (s, rest) ↦ ok (trim_zero s, record br { stream = record stream { bytes = rest } })
  | none ↦ elim stream.fault [
    | eof ↦ ok (trim_zero stream.bytes, record br { stream = record stream { bytes = [] } })
    | e ↦ err e
  ]
]
  where
    open br use {stream}

unfoldable pub parse_handler : P HandlerBox
unfolding handler_name
parse_handler = do
  full ← read_full_box
  buf ← peek_bytes 20
  discard_bytes 20
  name ← handler_name
  pure (record { full = full; handler_type = take 4 (drop 4 buf); name = name })

unfoldable pub parse_primary_item : P PrimaryItemBox
parse_primary_item = do
  full ← read_full_box
  item_id ← (if full.version == 0 then lift read_uint16 else lift read_uint32)
  check
  pure (record { full = full; item_id = item_id })

unfoldable pub parse_image_rotation : P ImageRotation
parse_image_rotation = do v ← lift read_uint8; check; pure (record { angle = bit_and v 3 })

-- The fields of an "mvhd" box, each of `bits` bits but the time scale.
unfoldable pub movie_fields : FullBox → P ℕ → P MovieHeaderBox
movie_fields full field = do
  created ← field
  modified ← field
  scale ← lift read_uint32
  duration ← field
  check
  pure (record {
    full = full;
    creation_time = created;
    modification_time = modified;
    time_scale = scale;
    duration = duration;
  })

unfoldable pub parse_movie_header : P MovieHeaderBox
unfolding movie_fields
parse_movie_header = do
  full ← read_full_box
  (if full.version == 0
      then movie_fields full (lift read_uint32)
      else if full.version == 1
      then movie_fields full (lift (read_uint_n 64))
      else throw (mvhd_version full.version))

-- `io.ReadAll` of what is left.
unfoldable pub all_bytes : P (List ℕ)
all_bytes br = elim br.stream.fault [
  | eof ↦ ok (br.stream.bytes, record br { stream = record br.stream { bytes = [] } })
  | e ↦ err e
]

-- A short "data" box has an error of its own.
unfoldable pub check_data : P (Unit {0})
check_data br = elim br.sticky [ none ↦ ok (tt, br) | some _ ↦ err short_data ]

unfoldable pub parse_data : P DataBox
unfolding all_bytes check_data
parse_data = do
  data_type ← lift read_uint32
  locale ← lift read_uint32
  check_data
  value ← all_bytes
  pure (record { data_type = data_type; locale = locale; value = value })
