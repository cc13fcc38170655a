-- ===== src/Heif/Encode/Stored.antt =====
-- What `getMeta` of media/heif/heif.go keeps of the "meta" box of `EncodeImage`.
use go.Common.{ℕ, ◌+◌, ◌^◌, ◌<◌, ◌≡◌, refl, false, List, [], ◌∷◌, length, All, none, some}
use go.Bmff.Stream.{ok}
use go.Bmff.Encode.{Item, Fits, box_length, encode_boxes}
use go.Bmff.Reader.Items.{box_at, boxes_at}
use go.Bmff.Reader.Children.{total_length}
use go.Bmff.Boxes
use go.Bmff.Boxes.{
  FileTypeBox, ItemInfoEntry, HandlerBox, PrimaryItemBox, ItemInfoBox, MetaBox, Parsed,
}
use go.Bmff.Parser.{tag, same_bytes}
use go.Bmff.Parse.{parse}
use go.Heif.File.{done, BoxMeta, no_meta, store_child, store_children}
use go.Heif.Encode.Pieces.{no_flags, parse_hdlr, parse_pitm, parse_iinf, parse_iloc, location_box}
use go.Heif.Encode.Properties.{properties_box, parse_iprp}
use go.Heif.Encode.Meta.{children_of, meta_items}

-- Every box parses, wherever it stands.
Parses : List Item → List Parsed → Type 0
Parses [] [] = Unit
Parses (it ∷ its) (v ∷ vs) = ((at : ℕ) → parse (box_at at it) ≡ ok v) × Parses its vs
Parses _ _ = ⊥

abbrev store_all : List Parsed → BoxMeta → BoxMeta
store_all [] m = m
store_all (v ∷ vs) m = store_all vs (store_child v m)

store_parsed :
    (its : List Item) (vs : List Parsed) (at : ℕ) (m : BoxMeta)
    → Parses its vs
    → store_children (boxes_at at its) m ≡ done (store_all vs m)
unfolding store_children Parses
store_parsed [] [] at m tt = refl
store_parsed (it ∷ its) (v ∷ vs) at m (e, h) =
    rw (store_children, e at) (store_parsed its vs (at + box_length it) (store_child v m) h)
store_parsed [] (_ ∷ _) at m h = absurd h
store_parsed (_ ∷ _) [] at m h = absurd h

-- The metadata of a file with one item.
abbrev pub one_item : FileTypeBox → ItemInfoEntry → List Item → List ℕ → ℕ → ℕ → BoxMeta
one_item ft ie its ipma off n = record {
  file_type = some ft;
  handler = some (record { full = no_flags; handler_type = tag "pict"; name = [] });
  primary_item = some (record { full = no_flags; item_id = 1 });
  item_info = some (record { full = no_flags; count = 1; item_infos = ie ∷ [] });
  properties = some (properties_box its ipma);
  item_location = some (location_box off n);
  item_reference = none;
}

pub store_children_of :
    (ft : FileTypeBox) (a b c d off n : ℕ) (its : List Item) (ipma : List ℕ)
    → total_length its + 8 < 2 ^ 32
    → All Fits its
    → length ipma < 2 ^ 8
    → off < 2 ^ 32
    → n < 2 ^ 32
    → same_bytes (a ∷ b ∷ c ∷ d ∷ []) (tag "mime") ≡ false
    → same_bytes (a ∷ b ∷ c ∷ d ∷ []) (tag "uri ") ≡ false
    → (ie : ItemInfoEntry) × (store_children
          (children_of (a ∷ b ∷ c ∷ d ∷ []) its ipma off n)
          (record no_meta { file_type = some ft })
        ≡ done (one_item ft ie its ipma off n))
      × (ie.item_id ≡ 1)
      × (ie.item_type ≡ a ∷ b ∷ c ∷ d ∷ [])
unfolding Parses store_child
store_children_of ft a b c d off n its ipma h f ha ho hn h1 h2 =
    let (ie, e, i, t) = parse_iinf a b c d h1 h2 in
    (
      ie,
      store_parsed (meta_items (a ∷ b ∷ c ∷ d ∷ []) (encode_boxes its) ipma off n)
          (Boxes.handler (record { full = no_flags; handler_type = tag "pict"; name = [] })
            ∷ Boxes.primary_item (record { full = no_flags; item_id = 1 })
            ∷ Boxes.item_info (record { full = no_flags; count = 1; item_infos = ie ∷ [] })
            ∷ Boxes.item_location (location_box off n)
            ∷ Boxes.item_properties (properties_box its ipma)
            ∷ [])
          0 (record no_meta { file_type = some ft })
          (
            parse_hdlr,
            (
              parse_pitm,
              (e, ((λ at. parse_iloc at off n ho hn), ((λ at. parse_iprp at its ipma f h ha), tt))),
            ),
          ),
      i,
      t,
    )
