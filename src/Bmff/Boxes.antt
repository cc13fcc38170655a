-- ===== src/Bmff/Boxes.antt =====
-- The parsed boxes of media/heif/bmff/bmff.go and quicktime.go. A Go string is the list of its bytes.
-- The embedded raw box is left out: it stands beside the parsed one wherever a box is parsed.
use go.Common.{ℕ, Bool, List}
use go.Bmff.Reader.{Box}

pub record FullBox : Type 0 where
  pub version : ℕ
  pub flags : ℕ

pub record FileTypeBox : Type 0 where
  pub major_brand : List ℕ
  pub minor_version : List ℕ
  pub compatible : List (List ℕ)

pub record MetaBox : Type 0 where
  pub full : FullBox
  pub quick_time : Bool
  pub children : List Box

pub record ItemInfoEntry : Type 0 where
  pub full : FullBox
  pub item_id : ℕ
  pub protection_index : ℕ
  pub item_type : List ℕ
  pub name : List ℕ
  pub content_type : List ℕ
  pub content_encoding : List ℕ
  pub item_uri_type : List ℕ

pub record ItemInfoBox : Type 0 where
  pub full : FullBox
  pub count : ℕ
  pub item_infos : List ItemInfoEntry

pub record ItemProperty : Type 0 where
  pub essential : Bool
  pub index : ℕ

pub record ItemPropertyAssociationItem : Type 0 where
  pub item_id : ℕ
  pub associations_count : ℕ
  pub associations : List ItemProperty

pub record ItemPropertyAssociation : Type 0 where
  pub full : FullBox
  pub entry_count : ℕ
  pub entries : List ItemPropertyAssociationItem

pub record ItemPropertyContainerBox : Type 0 where
  pub properties : List Box

pub record ItemPropertiesBox : Type 0 where
  pub property_container : ItemPropertyContainerBox
  pub associations : List ItemPropertyAssociation

pub record ImageSpatialExtentsProperty : Type 0 where
  pub full : FullBox
  pub image_width : ℕ
  pub image_height : ℕ

pub record OffsetLength : Type 0 where
  pub offset : ℕ
  pub extent_length : ℕ

pub record ItemLocationBoxEntry : Type 0 where
  pub item_id : ℕ
  pub construction_method : ℕ
  pub data_reference_index : ℕ
  pub base_offset : ℕ
  pub extent_count : ℕ
  pub extents : List OffsetLength

pub record ItemLocationBox : Type 0 where
  pub full : FullBox
  pub offset_size : ℕ
  pub length_size : ℕ
  pub base_offset_size : ℕ
  pub index_size : ℕ
  pub item_count : ℕ
  pub items : List ItemLocationBoxEntry

pub record HandlerBox : Type 0 where
  pub full : FullBox
  pub handler_type : List ℕ
  pub name : List ℕ

pub record DataInformationBox : Type 0 where
  pub children : List Box

pub record DataReferenceBox : Type 0 where
  pub full : FullBox
  pub entry_count : ℕ
  pub children : List Box

pub record PrimaryItemBox : Type 0 where
  pub full : FullBox
  pub item_id : ℕ

pub record ItemReference : Type 0 where
  pub ref_type : List ℕ
  pub from_item_id : ℕ
  pub to_item_ids : List ℕ

pub record ItemReferenceBox : Type 0 where
  pub full : FullBox
  pub references : List ItemReference

pub record ImageRotation : Type 0 where
  pub angle : ℕ

pub record MovieHeaderBox : Type 0 where
  pub full : FullBox
  pub creation_time : ℕ
  pub modification_time : ℕ
  pub time_scale : ℕ
  pub duration : ℕ

pub record MetadataKey : Type 0 where
  pub namespace : List ℕ
  pub name : List ℕ

pub record KeysBox : Type 0 where
  pub full : FullBox
  pub keys : List MetadataKey

pub record DataBox : Type 0 where
  pub data_type : ℕ
  pub locale : ℕ
  pub value : List ℕ

pub record MetadataItem : Type 0 where
  pub key_index : ℕ
  pub values : List DataBox

pub record ItemListBox : Type 0 where
  pub items : List MetadataItem

-- The concrete types behind the interface `Box` that `Parse` returns.
pub data Parsed : Type 0 where
  file_type : FileTypeBox → Parsed
  meta : MetaBox → Parsed
  item_info_entry : ItemInfoEntry → Parsed
  item_info : ItemInfoBox → Parsed
  property_container : ItemPropertyContainerBox → Parsed
  property_association : ItemPropertyAssociation → Parsed
  item_properties : ItemPropertiesBox → Parsed
  spatial_extents : ImageSpatialExtentsProperty → Parsed
  item_location : ItemLocationBox → Parsed
  handler : HandlerBox → Parsed
  data_information : DataInformationBox → Parsed
  data_reference : DataReferenceBox → Parsed
  primary_item : PrimaryItemBox → Parsed
  item_reference : ItemReferenceBox → Parsed
  image_rotation : ImageRotation → Parsed
  movie_header : MovieHeaderBox → Parsed
  metadata_keys : KeysBox → Parsed
  item_list : ItemListBox → Parsed
  data_box : DataBox → Parsed
