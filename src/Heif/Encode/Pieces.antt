-- ===== src/Heif/Encode/Pieces.antt =====
-- The boxes that `EncodeImage` of media/heif/heif.go writes, each parsed back by media/heif/bmff.
use go.Common.{
  ℕ, suc, ◌+◌, ◌^◌, ◌<◌, ◌≡◌, refl, ◌∙◌, arith, false, List, [], ◌∷◌, ◌++◌, ◌==◌, length,
  length-append, All, Bool-cases, inl, inr, none, some,
}
use go.Bmff.Stream.{eof, ok, err, Stream, Result, be, split_zero}
use go.Bmff.Encode.{be_bytes, be_four, length-be_bytes, Item, encode_box, encode_boxes, Fits}
use go.Bmff.Fields.{BufReader, read_uint16, read_uint_n, read_string, trim_zero}
use go.Bmff.Reader.{Box}
use go.Bmff.Reader.Items.{stream_of, box_at, boxes_at}
use go.Bmff.Reader.Children.{parse_append_boxes_items, total_length}
use go.Bmff.Boxes
use go.Bmff.Boxes.{FullBox, ItemInfoEntry, ItemProperty, ItemLocationBox}
use go.Bmff.Parser.{P, tag, read_full_box, child_boxes, same_bytes}
use go.Bmff.Parse.{
  parse, parse_body, parse_child, run_parser, as_box, parse_item_info, info_entries,
}
use go.Bmff.Parse.Leaf.{
  parse_item_info_entry, item_info_fields, entry_texts, parse_handler, parse_primary_item,
}
use go.Bmff.Parse.Tables.{parse_item_location}
use go.Heif.Encode.{append_box, hdlr_body, pitm_body, infe_body, iinf_body, iloc_body}

abbrev pub small : List ℕ → List ℕ → Item
small typ body = record { large = false; box_type = typ; body = body }

pub append_box-eq-encode_box :
    (dst typ body : List ℕ) → append_box dst typ body ≡ dst ++ encode_box (small typ body)
unfolding append_box encode_box
append_box-eq-encode_box dst typ body = refl

pub length-append_box :
    (dst typ body : List ℕ)
    → length typ ≡ 4
    → length (append_box dst typ body) ≡ length dst + 8 + length body
unfolding append_box
length-append_box dst typ body h = omega (
  arith,
  length-append dst (be_bytes 4 (8 + length body) ++ (typ ++ body)),
  length-append (be_bytes 4 (8 + length body)) (typ ++ body),
  length-be_bytes 4 (8 + length body),
  length-append typ body,
)

abbrev pub no_flags : FullBox
no_flags = record { version = 0; flags = 0 }

-- "hdlr" and "pitm" are the same in every file.
pub parse_hdlr :
    (at : ℕ)
    → parse (box_at at (small (tag "hdlr") hdlr_body))
      ≡ ok (Boxes.handler (record { full = no_flags; handler_type = tag "pict"; name = [] }))
unfolding parse parse_handler read_full_box hdlr_body split_zero
parse_hdlr at = refl

pub parse_pitm :
    (at : ℕ)
    → parse (box_at at (small (tag "pitm") pitm_body))
      ≡ ok (Boxes.primary_item (record { full = no_flags; item_id = 1 }))
unfolding parse parse_primary_item read_full_box pitm_body read_uint16
parse_pitm at = refl

-- What "iloc" says of the one item with its one extent.
abbrev pub location_box : ℕ → ℕ → ItemLocationBox
location_box off n = record {
  full = no_flags;
  offset_size = 4;
  length_size = 4;
  base_offset_size = 0;
  index_size = 0;
  item_count = 1;
  items =
      record {
        item_id = 1;
        construction_method = 0;
        data_reference_index = 0;
        base_offset = 0;
        extent_count = 1;
        extents = record { offset = off; extent_length = n } ∷ [];
      }
      ∷ [];
}

iloc_raw :
    (at off n : ℕ)
    → parse (box_at at (small (tag "iloc") (iloc_body off n)))
      ≡ ok (Boxes.item_location (location_box (be (be_bytes 4 off)) (be (be_bytes 4 n))))
unfolding parse parse_item_location read_full_box iloc_body read_uint16 read_uint_n
iloc_raw at off n = refl

-- The "iloc" box that `EncodeImage` writes gives back item 1 with one extent of the offset and the
-- length that were written, if both are below 2 ^ 32.
pub parse_iloc :
    (at off n : ℕ)
    → off < 2 ^ 32
    → n < 2 ^ 32
    → parse (box_at at (small (tag "iloc") (iloc_body off n)))
      ≡ ok (Boxes.item_location (location_box off n))
parse_iloc at off n ho hn = rw (iloc_raw at off n, be_four off ho, be_four n hn)

split_zero_ends : (xs : List ℕ) → (s t : List ℕ) × (split_zero (xs ++ (0 ∷ [])) ≡ some (s, t))
unfolding split_zero
split_zero_ends [] = (0 ∷ [], [], refl)
split_zero_ends (x ∷ xs) =
    let (s, t, e) = split_zero_ends xs in
    elim (Bool-cases (x == 0)) [
      | inl z ↦ (x ∷ [], xs ++ (0 ∷ []), rw z)
      | inr n ↦ (x ∷ s, t, rw (n, e))
    ]

entry_texts_plain :
    (ie : ItemInfoEntry) (br : BufReader)
    → same_bytes ie.item_type (tag "mime") ≡ false
    → same_bytes ie.item_type (tag "uri ") ≡ false
    → entry_texts ie br ≡ ok (ie, br)
unfolding entry_texts
entry_texts_plain ie br h1 h2 = rw (h1, h2)

-- "infe" keeps the item's type, unless that calls for further texts.
infe_raw :
    (fuel a b c d : ℕ)
    → same_bytes (a ∷ b ∷ c ∷ d ∷ []) (tag "mime") ≡ false
    → same_bytes (a ∷ b ∷ c ∷ d ∷ []) (tag "uri ") ≡ false
    → (ie : ItemInfoEntry) × (parse_body
          (suc fuel)
          (tag "infe")
          (stream_of (infe_body (a ∷ b ∷ c ∷ d ∷ [])) eof)
        ≡ ok (Boxes.item_info_entry ie))
      × (ie.item_id ≡ 1)
      × (ie.item_type ≡ a ∷ b ∷ c ∷ d ∷ [])
unfolding parse_body parse_item_info_entry item_info_fields read_full_box infe_body read_uint16
    read_string
infe_raw fuel a b c d h1 h2 =
    let (s, t, e) = split_zero_ends (a ∷ b ∷ c ∷ d ∷ []) in
    let ie : ItemInfoEntry = record {
      full = record { version = 2; flags = 0 };
      item_id = 1;
      protection_index = 0;
      item_type = a ∷ b ∷ c ∷ d ∷ [];
      name = trim_zero s;
      content_type = [];
      content_encoding = [];
      item_uri_type = [];
    } in
    let br : BufReader = record { stream = record { bytes = t; fault = eof }; sticky = none } in
    (ie, ground (arith, e, entry_texts_plain ie br h1 h2), refl, refl)

abbrev pub fresh : List ℕ → BufReader
fresh bytes = record { stream = stream_of bytes eof; sticky = none }

-- The children of a box whose body is a sequence of boxes.
pub child_boxes_items :
    (its : List Item)
    → All Fits its
    → total_length its < 2 ^ 64
    → child_boxes (fresh (encode_boxes its)) ≡ ok (boxes_at 0 its, fresh [])
unfolding child_boxes
child_boxes_items its h l = ground (arith, parse_append_boxes_items its h l)

pub after :
    {A B : Type 0} {r : Result (A × BufReader)} {br : BufReader} {a : A} (f : A → P B)
    → r ≡ ok (a, br)
    → elim r [ ok (x, s) ↦ f x s | err e ↦ err e ] ≡ f a br
after f e = rw e

pub run_as_box :
    {A : Type 0} (c : A → Boxes.Parsed) (m : P A) (s : Stream) (a : A) (br : BufReader)
    → m (record { stream = s; sticky = none }) ≡ ok (a, br)
    → run_parser (some (as_box c m)) s ≡ ok (c a)
run_as_box c m s a br e = rw (run_parser, e)

-- The parsers of boxes with children, whatever fuel those get.
parse_body_iinf :
    (fuel : ℕ) (s : Stream)
    → parse_body (suc fuel) (tag "iinf") s
      ≡ run_parser (some (as_box Boxes.item_info (parse_item_info (parse_child fuel)))) s
unfolding parse_body
parse_body_iinf fuel s = refl

parse_item_info_one :
    (p : Box → Result Boxes.Parsed) (a b c d : ℕ) (ie : ItemInfoEntry)
    → p (box_at 0 (small (tag "infe") (infe_body (a ∷ b ∷ c ∷ d ∷ []))))
      ≡ ok (Boxes.item_info_entry ie)
    → parse_item_info p (fresh (iinf_body (a ∷ b ∷ c ∷ d ∷ [])))
      ≡ ok (record { full = no_flags; count = 1; item_infos = ie ∷ [] }, fresh [])
unfolding parse_item_info info_entries read_full_box read_uint16 iinf_body encode_boxes
parse_item_info_one p a b c d ie e =
    let it = small (tag "infe") (infe_body (a ∷ b ∷ c ∷ d ∷ [])) in
    let kids =
      child_boxes_items (it ∷ []) (record { four = refl; size = omega arith }, tt) (omega arith) in
    ground (arith, kids, e)

-- "iinf" gives back the one entry.
pub parse_iinf :
    (a b c d : ℕ)
    → same_bytes (a ∷ b ∷ c ∷ d ∷ []) (tag "mime") ≡ false
    → same_bytes (a ∷ b ∷ c ∷ d ∷ []) (tag "uri ") ≡ false
    → (ie : ItemInfoEntry) × ((at : ℕ)
        → parse (box_at at (small (tag "iinf") (iinf_body (a ∷ b ∷ c ∷ d ∷ []))))
          ≡ ok (Boxes.item_info (record { full = no_flags; count = 1; item_infos = ie ∷ [] })))
      × (ie.item_id ≡ 1)
      × (ie.item_type ≡ a ∷ b ∷ c ∷ d ∷ [])
unfolding parse
parse_iinf a b c d h1 h2 =
    let (ie, e, i, t) = infe_raw 26 a b c d h1 h2 in
    let one = parse_item_info_one (parse_child 27) a b c d ie e in
    (
      ie,
      λ at.
          unfold iinf_body in
          parse_body_iinf 27 (stream_of (iinf_body (a ∷ b ∷ c ∷ d ∷ [])) eof)
          ∙ run_as_box Boxes.item_info (parse_item_info (parse_child 27))
              (stream_of (iinf_body (a ∷ b ∷ c ∷ d ∷ [])) eof) _ _ one,
      i,
      t,
    )
