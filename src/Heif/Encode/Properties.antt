-- ===== src/Heif/Encode/Properties.antt =====
-- The properties that `EncodeImage` of media/heif/heif.go writes: "ipco", "ipma" and "iprp", parsed back.
use Prim.Native.Nat.{bit_and}
use go.Common.{
  ℕ, suc, ◌+◌, ◌-◌, ◌^◌, ◌<◌, ◌≡◌, refl, sym, ap, ◌∙◌, arith, true, List, [], ◌∷◌, ◌++◌, ◌==◌,
  append-nil, length, All, not, leb,
}
use go.Bmff.Stream.{eof, ok, err, Result, short, peek, discard, be}
use go.Bmff.Encode.{Item, encode_box, encode_boxes, Fits}
use go.Bmff.Fields.{read_field, read_uint8, read_uint16, read_uint32, skip}
use go.Bmff.Reader.{Box}
use go.Bmff.Reader.Items.{stream_of, box_at, boxes_at}
use go.Bmff.Reader.Children.{total_length, length-encode_boxes}
use go.Bmff.Boxes
use go.Bmff.Boxes.{FullBox, ItemProperty, ItemPropertyAssociation, ItemPropertiesBox}
use go.Bmff.Parser.{tag, read_full_box}
use go.Bmff.Parse.{
  parse, parse_body, parse_child, parse_item_properties, item_properties_of, associations,
  parse_property_container,
}
use go.Bmff.Parse.Tables.{
  association, association_list, association_item, association_items,
  parse_item_property_association,
}
use go.Heif.Encode.{ipma_body, iprp_body, append_box}
use go.Heif.Encode.Pieces.{
  small, no_flags, length-append_box, fresh, child_boxes_items, run_as_box, after,
}

-- What an association byte says: the top bit, and the index below it.
abbrev pub association_of : ℕ → ItemProperty
association_of v = record { essential = not (bit_and v 0x80 == 0); index = v - bit_and v 0x80 }

abbrev pub associations_of : List ℕ → List ItemProperty
associations_of [] = []
associations_of (v ∷ vs) = association_of v ∷ associations_of vs

read_byte : (v : ℕ) (vs : List ℕ) → read_uint8 (fresh (v ∷ vs)) ≡ (v, fresh vs)
unfolding read_uint8 read_field peek short be skip discard
read_byte v vs = rw (read_field, peek, some_left) (ap (λ n. (n, fresh vs)) (omega arith))
  where
    some_left : leb 1 (suc (length vs)) ≡ true
    some_left = ground arith

association_list_bytes :
    (vs : List ℕ)
    → association_list (length vs) no_flags (fresh vs) ≡ ok (associations_of vs, fresh [])
unfolding association_list association
association_list_bytes [] = refl
association_list_bytes (v ∷ vs) = ground (arith, read_byte v vs, association_list_bytes vs)

abbrev pub association_box : List ℕ → ItemPropertyAssociation
association_box ipma = record {
  full = no_flags;
  entry_count = 1;
  entries =
      record { item_id = 1; associations_count = length ipma; associations = associations_of ipma }
      ∷ [];
}

parse_association :
    (ipma : List ℕ)
    → length ipma < 2 ^ 8
    → parse_item_property_association (fresh (ipma_body ipma)) ≡ ok (association_box ipma, fresh [])
unfolding parse_item_property_association association_items association_item read_full_box ipma_body
    read_uint32 read_uint16 read_uint8
parse_association ipma h = ground (arith, association_list_bytes ipma)

parse_body_ipma :
    (fuel : ℕ) (ipma : List ℕ)
    → length ipma < 2 ^ 8
    → parse_body (suc fuel) (tag "ipma") (stream_of (ipma_body ipma) eof)
      ≡ ok (Boxes.property_association (association_box ipma))
unfolding parse_body
parse_body_ipma fuel ipma h =
    run_as_box Boxes.property_association parse_item_property_association _ _ _
      (parse_association ipma h)

parse_body_ipco :
    (fuel : ℕ) (its : List Item)
    → All Fits its
    → total_length its < 2 ^ 64
    → parse_body (suc fuel) (tag "ipco") (stream_of (encode_boxes its) eof)
      ≡ ok (Boxes.property_container (record { properties = boxes_at 0 its }))
unfolding parse_body parse_property_container
parse_body_ipco fuel its h l =
    run_as_box Boxes.property_container parse_property_container _ _ (fresh [])
      (after (λ boxes br. ok (record { properties = boxes }, br)) (child_boxes_items its h l))

-- The two children of "iprp".
abbrev iprp_items : List ℕ → List ℕ → List Item
iprp_items ipco ipma = small (tag "ipco") ipco ∷ small (tag "ipma") (ipma_body ipma) ∷ []

iprp_body-eq : (ipco ipma : List ℕ) → iprp_body ipco ipma ≡ encode_boxes (iprp_items ipco ipma)
unfolding iprp_body append_box encode_boxes encode_box
iprp_body-eq ipco ipma = ap (λ xs. append_box [] (tag "ipco") ipco ++ xs) (sym (append-nil _))

abbrev pub properties_box : List Item → List ℕ → ItemPropertiesBox
properties_box its ipma = record {
  property_container = record { properties = boxes_at 0 its };
  associations = association_box ipma ∷ [];
}

length-ipma_body : (ipma : List ℕ) → length (ipma_body ipma) ≡ 11 + length ipma
unfolding ipma_body
length-ipma_body ipma = omega arith

item_properties_read :
    (p : Box → Result Boxes.Parsed) (its : List Item) (ipma : List ℕ)
    → length ipma < 2 ^ 8
    → length (encode_boxes its) + 8 < 2 ^ 32
    → ((at : ℕ)
        → p (box_at at (small (tag "ipco") (encode_boxes its)))
          ≡ ok (Boxes.property_container (record { properties = boxes_at 0 its })))
    → ((at : ℕ)
        → p (box_at at (small (tag "ipma") (ipma_body ipma)))
          ≡ ok (Boxes.property_association (association_box ipma)))
    → parse_item_properties p (fresh (encode_boxes (iprp_items (encode_boxes its) ipma)))
      ≡ ok (properties_box its ipma, fresh [])
unfolding parse_item_properties item_properties_of associations
item_properties_read p its ipma h l e1 e2 =
    let kids =
      child_boxes_items (iprp_items (encode_boxes its) ipma)
        (
          record { four = refl; size = omega arith },
          (record { four = refl; size = omega (arith, length-ipma_body ipma) }, tt),
        )
        (omega (arith, length-ipma_body ipma)) in
    after (λ boxes br. elim (item_properties_of p boxes) [ ok ip ↦ ok (ip, br) | err e ↦ err e ])
      kids
    ∙ rw (e1 0, e2 _)

parse_body_iprp :
    (fuel : ℕ) (its : List Item) (ipma : List ℕ)
    → All Fits its
    → total_length its + 8 < 2 ^ 32
    → length ipma < 2 ^ 8
    → parse_body (suc (suc fuel)) (tag "iprp") (stream_of (iprp_body (encode_boxes its) ipma) eof)
      ≡ ok (Boxes.item_properties (properties_box its ipma))
unfolding parse_body
parse_body_iprp fuel its ipma f l h =
    run_as_box Boxes.item_properties (parse_item_properties (parse_child (suc fuel))) _ _ (fresh [])
      (ap (λ xs. parse_item_properties (parse_child (suc fuel)) (fresh xs))
          (iprp_body-eq (encode_boxes its) ipma)
        ∙ item_properties_read (parse_child (suc fuel)) its ipma h
            (omega (arith, length-encode_boxes its f))
            (λ at. parse_body_ipco fuel its f (omega arith)) (λ at. parse_body_ipma fuel ipma h))

pub length-iprp_body :
    (ipco ipma : List ℕ) → length (iprp_body ipco ipma) ≡ length ipco + length ipma + 27
unfolding iprp_body
length-iprp_body ipco ipma = omega (
  arith,
  length-append_box (append_box [] (tag "ipco") ipco) (tag "ipma") (ipma_body ipma) refl,
  length-append_box [] (tag "ipco") ipco refl,
  length-ipma_body ipma,
)

-- The "iprp" box that `EncodeImage` writes gives back the property boxes, in order, and an association
-- for each of the bytes, if the boxes fit and there are fewer than 256 bytes.
pub parse_iprp :
    (at : ℕ) (its : List Item) (ipma : List ℕ)
    → All Fits its
    → total_length its + 8 < 2 ^ 32
    → length ipma < 2 ^ 8
    → parse (box_at at (small (tag "iprp") (iprp_body (encode_boxes its) ipma)))
      ≡ ok (Boxes.item_properties (properties_box its ipma))
unfolding parse
parse_iprp at its ipma f l h =
    let body = iprp_body (encode_boxes its) ipma in
    let n : length body ≡ suc (length body - 1) =
      omega (arith, length-iprp_body (encode_boxes its) ipma) in
    ap (λ n. parse_body (suc n) (tag "iprp") (stream_of body eof)) n
    ∙ parse_body_iprp (length body - 1) its ipma f l h
