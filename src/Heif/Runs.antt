-- ===== src/Heif/Runs.antt =====
-- Concrete runs of media/heif/heif.go, and its theorems at concrete inputs.
use go.Common.{ℕ, ◌≡◌, refl, arith, true, false, none, some, List, [], ◌∷◌}
use go.Bmff.Stream.{ok, be}
use go.Bmff.Encode.{Item, encode_boxes, encode_box}
use go.Bmff.Boxes
use go.Bmff.Boxes.{ItemInfoEntry}
use go.Bmff.Parser.{tag}
use go.Bmff.Parse.{parse}
use go.Bmff.Reader.Items.{box_at}
use go.Heif.File.{done, fail, BoxMeta, load_meta, no_meta}
use go.Heif.Items
use go.Heif.Items.{
  property_associations, Property, primary_item, item_data, visual_dimensions, spatial_extents,
  rotations,
}
use go.Heif.Encode.{encode_image, iloc_body, iprp_body}
use go.Heif.Encode.Pieces.{small, parse_iloc, location_box}
use go.Heif.Encode.Properties.{properties_box, parse_iprp}
use go.Heif.Encode.Written.{Written, properties_of}
use go.Heif.Encode.ReadBack.{encode_image-item_data}
use go.Heif.Derived.{standalone_heif}
use go.Heif.Standalone.{standalone_heif-item_data}

-- Spatial extents of 640 by 480, and one quarter turn.
abbrev written : List Written
written =
    record {
      box_type = tag "ispe";
      body = 0 ∷ 0 ∷ 0 ∷ 0 ∷ 0 ∷ 0 ∷ 2 ∷ 128 ∷ 0 ∷ 0 ∷ 1 ∷ 224 ∷ [];
      essential = false;
    }
    ∷ record { box_type = tag "irot"; body = 1 ∷ []; essential = true }
    ∷ []

abbrev file : List ℕ
unfolding encode_image
file = elim (encode_image (tag "heic") (tag "hvc1") (properties_of written) (1 ∷ 2 ∷ 3 ∷ [])) [
  | done f ↦ f
  | fail _ ↦ []
]

encoded :
    encode_image (tag "heic") (tag "hvc1") (properties_of written) (1 ∷ 2 ∷ 3 ∷ []) ≡ done file
unfolding file encode_image encode_box be
encoded = refl

encode_image-item_data_example :
    (m : BoxMeta) × (it : Items.Item) × (load_meta file ≡ done m)
    × (primary_item m ≡ done it)
    × (it.info.item_type ≡ tag "hvc1")
    × (item_data file it ≡ done (1 ∷ 2 ∷ 3 ∷ []))
encode_image-item_data_example =
    encode_image-item_data (tag "heic") (tag "hvc1") written (1 ∷ 2 ∷ 3 ∷ []) file encoded
      (record { four = refl; size = omega arith }, (record { four = refl; size = omega arith }, tt))
      (omega arith) (omega arith) refl refl

parse_iloc_example :
    parse (box_at 0 (small (tag "iloc") (iloc_body 300 1000)))
    ≡ ok (Boxes.item_location (location_box 300 1000))
parse_iloc_example = parse_iloc 0 300 1000 (omega arith) (omega arith)

abbrev turned : Items.Item
turned = record {
  id = 1;
  info = record {
    full = record { version = 2; flags = 0 };
    item_id = 1;
    protection_index = 0;
    item_type = tag "hvc1";
    name = [];
    content_type = [];
    content_encoding = [];
    item_uri_type = [];
  };
  location = none;
  properties =
      record {
        raw = box_at 0 (small (tag "irot") (3 ∷ []));
        parsed = some (Boxes.image_rotation (record { angle = 3 }));
      }
      ∷ record {
        raw = box_at 9 (small (tag "ispe") []);
        parsed = some (
            Boxes.spatial_extents (record {
              full = record { version = 0; flags = 0 };
              image_width = 30;
              image_height = 20;
            }));
      }
      ∷ [];
}

abbrev one_property : List Item
one_property = small (tag "irot") (1 ∷ []) ∷ []

parse_iprp_example :
    parse (box_at 0 (small (tag "iprp") (iprp_body (encode_boxes one_property) (0x81 ∷ []))))
    ≡ ok (Boxes.item_properties (properties_box one_property (0x81 ∷ [])))
parse_iprp_example =
    parse_iprp 0 one_property (0x81 ∷ []) (record { four = refl; size = omega arith }, tt)
      (omega arith) (omega arith)

-- An item of three bytes at the start of its file, with a quarter turn.
abbrev stored : Items.Item
stored = record turned {
  location = some (record {
    item_id = 1;
    construction_method = 0;
    data_reference_index = 0;
    base_offset = 0;
    extent_count = 1;
    extents = record { offset = 0; extent_length = 3 } ∷ [];
  });
}

abbrev stored_meta : BoxMeta
stored_meta = record no_meta { properties = some (properties_box one_property (1 ∷ [])) }

abbrev standalone_file : List ℕ
unfolding standalone_heif
standalone_file = elim (standalone_heif (1 ∷ 2 ∷ 3 ∷ []) stored_meta stored) [
  | done f ↦ f
  | fail _ ↦ []
]

standalone_made : standalone_heif (1 ∷ 2 ∷ 3 ∷ []) stored_meta stored ≡ done standalone_file
unfolding standalone_heif standalone_file item_data encode_image property_associations be
standalone_made = refl

standalone_heif-item_data_example :
    (contents : List ℕ) × (bm : BoxMeta) × (it' : Items.Item) × (item_data (1 ∷ 2 ∷ 3 ∷ []) stored
      ≡ done contents)
    × (load_meta standalone_file ≡ done bm)
    × (primary_item bm ≡ done it')
    × (it'.info.item_type ≡ tag "hvc1")
    × (item_data standalone_file it' ≡ done contents)
standalone_heif-item_data_example =
    standalone_heif-item_data (1 ∷ 2 ∷ 3 ∷ []) stored_meta stored standalone_file standalone_made
      (record { four = refl; size = omega arith }, tt)
