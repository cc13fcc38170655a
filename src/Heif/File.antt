-- ===== src/Heif/File.antt =====
-- `File` of media/heif/heif.go: the lazily read metadata.
-- The `io.ReaderAt` is the list of the file's bytes.
use go.Common.{ℕ, ◌*◌, ◌^◌, Option, none, some, List, [], ◌∷◌, if◌then◌else◌, take}
use go.Bmff.Stream.{Err, eof, unknown_box, ok, err}
use go.Bmff.Reader.{Box, Reader, plain, read_box, body_stream, new_reader}
use go.Bmff.Boxes
use go.Bmff.Boxes.{
  FileTypeBox, MetaBox, HandlerBox, PrimaryItemBox, ItemInfoBox, ItemPropertiesBox, ItemLocationBox,
  ItemReferenceBox, Parsed,
}
use go.Bmff.Parser.{tag, same_bytes}
use go.Bmff.Parse.{parse_body, parse}
use go.Common.{length, suc}

-- The errors of the package; those of bmff come wrapped, but for what `getMeta` passes on.
pub data HeifErr : Type 0 where
  reading parsing : Err → HeifErr
  got_type : List ℕ → HeifErr
  meta_child : Err → HeifErr
  no_primary unknown_item no_exif : HeifErr
  exif_location exif_count exif_large exif_small : HeifErr
  no_location unsupported no_extents extent_length extent_offset : HeifErr
  short_read : HeifErr
  not_coded invalid_type many_properties not_a_box large_image : HeifErr

pub data Outcome {ℓ} (A : Type ℓ) : Type ℓ where
  done : A → Outcome A
  fail : HeifErr → Outcome A

infixl 5 ◌>>=◌
abbrev pub ◌>>=◌ {ℓ κ} : {A : Type ℓ} {B : Type κ} → Outcome A → (A → Outcome B) → Outcome B
done a >>= f = f a
fail e >>= f = fail e

pub record BoxMeta : Type 0 where
  pub file_type : Option FileTypeBox
  pub handler : Option HandlerBox
  pub primary_item : Option PrimaryItemBox
  pub item_info : Option ItemInfoBox
  pub properties : Option ItemPropertiesBox
  pub item_location : Option ItemLocationBox
  pub item_reference : Option ItemReferenceBox

pub record File : Type 0 where
  pub ra : List ℕ
  pub meta_err : Option HeifErr
  pub meta : Option BoxMeta

unfoldable pub open_file : List ℕ → File
open_file ra = record { ra = ra; meta_err = none; meta = none }

-- `setMetaErr`: the condition is `f.metaErr != nil`, as in the source.
unfoldable pub set_meta_err : HeifErr → File → File
set_meta_err e f = elim f.meta_err [ none ↦ f | some _ ↦ record f { meta_err = some e } ]

-- `ReadAndParseBox`. What the parser leaves of the body is skipped by the next `ReadBox`.
unfoldable pub read_and_parse : List ℕ → Reader → Outcome (Parsed × Reader)
read_and_parse typ r =
    let (res, r') = read_box plain r in
    elim res [
      | err e ↦ fail (reading e)
      | ok h ↦
          if same_bytes h.box_type typ
          then elim (parse_body (suc (length (body_stream r').bytes)) h.box_type (body_stream r')) [
            | ok box ↦ done (box, r')
            | err e ↦ fail (parsing e)
          ]
          else fail (got_type h.box_type)
    ]

-- The type switch of `getMeta` on a parsed child.
unfoldable pub store_child : Parsed → BoxMeta → BoxMeta
store_child (Boxes.handler v) m = record m { handler = some v }
store_child (Boxes.primary_item v) m = record m { primary_item = some v }
store_child (Boxes.item_info v) m = record m { item_info = some v }
store_child (Boxes.item_properties v) m = record m { properties = some v }
store_child (Boxes.item_location v) m = record m { item_location = some v }
store_child (Boxes.item_reference v) m = record m { item_reference = some v }
store_child _ m = m

-- Children of unknown types are passed over.
unfoldable pub store_children : List Box → BoxMeta → Outcome BoxMeta
unfolding store_child
store_children [] m = done m
store_children (b ∷ bs) m = elim (parse b) [
  | ok v ↦ store_children bs (store_child v m)
  | err unknown_box ↦ store_children bs m
  | err e ↦ fail (meta_child e)
]

abbrev pub no_meta : BoxMeta
no_meta = record {
  file_type = none;
  handler = none;
  primary_item = none;
  item_info = none;
  properties = none;
  item_location = none;
  item_reference = none;
}

-- The type assertions on what `ReadAndParseBox` returns.
abbrev pub as_file_type : Parsed → Option FileTypeBox
as_file_type (Boxes.file_type v) = some v
as_file_type _ = none

abbrev pub as_children : Parsed → List Box
as_children (Boxes.meta v) = v.children
as_children _ = []

abbrev pub assumed_max_size : ℕ
assumed_max_size = 5 * 2 ^ 40

-- What `getMeta` reads when nothing is cached.
unfoldable pub load_meta : List ℕ → Outcome BoxMeta
unfolding read_and_parse store_children
load_meta ra =
    let r = new_reader (record { bytes = take assumed_max_size ra; fault = eof }) in
    do
      ftyp ← read_and_parse (tag "ftyp") r
      meta ← read_and_parse (tag "meta") ftyp.1
      store_children (as_children meta.0) (record no_meta { file_type = as_file_type ftyp.0 })

-- `getMeta`, with what it finds if it reads the file.
unfoldable pub get_with : Outcome BoxMeta → File → Outcome BoxMeta × File
unfolding set_meta_err
get_with loaded f = elim f.meta_err [
  | some e ↦ (fail e, f)
  | none ↦ elim f.meta [
    | some m ↦ (done m, f)
    | none ↦ elim loaded [
      | done m ↦ (done m, record f { meta = some m })
      | fail e ↦ (fail e, set_meta_err e f)
    ]
  ]
]

unfoldable pub get_meta : File → Outcome BoxMeta × File
unfolding get_with load_meta
get_meta f = get_with (load_meta f.ra) f
