-- ===== src/Heif/Encode/Meta.antt =====
-- The "meta" box that `buildMeta` of media/heif/heif.go writes, as `getMeta` reads it.
use go.Common.{
  ℕ, suc, ◌+◌, ◌^◌, ◌<◌, ◌≡◌, refl, sym, ap, ◌∙◌, arith, false, List, [], ◌∷◌, ◌++◌, append_assoc,
  append-nil, length, replicate, length-append, All, take, drop, take-length_append,
}
use go.Bmff.Stream.{eof, ok, err, Err, short_full_box, be, peek, discard}
use go.Bmff.Encode.{Item, encode_box, encode_boxes, Fits, be_bytes}
use go.Bmff.Reader.{Box}
use go.Bmff.Reader.Items.{stream_of, boxes_at}
use go.Bmff.Reader.Children.{total_length, length-encode_boxes}
use go.Bmff.Fields.{skip}
use go.Bmff.Boxes
use go.Bmff.Boxes.{FileTypeBox, ItemInfoEntry, HandlerBox, PrimaryItemBox, ItemInfoBox, MetaBox}
use go.Bmff.Parser.{tag, full_box_of, read_full_box, child_boxes, same_bytes}
use go.Bmff.Parse.{parse_body, parse_meta, meta_full_box, is_quick_time}
use go.Heif.Encode.{append_box, hdlr_body, pitm_body, iinf_body, iloc_body, iprp_body, meta_body}
use go.Heif.Encode.Pieces.{
  small, no_flags, length-append_box, fresh, child_boxes_items, run_as_box, after,
}
use go.Heif.Encode.Properties.{length-iprp_body}

-- Boxes appended one after the other.
abbrev append_items : List ℕ → List Item → List ℕ
append_items dst [] = dst
append_items dst (it ∷ its) = append_items (dst ++ encode_box it) its

append_items-eq : (dst : List ℕ) (its : List Item) → append_items dst its ≡ dst ++ encode_boxes its
unfolding encode_boxes
append_items-eq dst [] = sym (append-nil dst)
append_items-eq dst (it ∷ its) =
    append_items-eq (dst ++ encode_box it) its ∙ append_assoc dst (encode_box it) (encode_boxes its)

-- The children of the "meta" box.
abbrev pub meta_items : List ℕ → List ℕ → List ℕ → ℕ → ℕ → List Item
meta_items item_type ipco ipma off n =
    small (tag "hdlr") hdlr_body
    ∷ small (tag "pitm") pitm_body
    ∷ small (tag "iinf") (iinf_body item_type)
    ∷ small (tag "iloc") (iloc_body off n)
    ∷ small (tag "iprp") (iprp_body ipco ipma)
    ∷ []

meta_body-eq :
    (item_type ipco ipma : List ℕ) (off n : ℕ)
    → meta_body item_type ipco ipma off n
      ≡ replicate 4 0 ++ encode_boxes (meta_items item_type ipco ipma off n)
unfolding meta_body append_box encode_box
meta_body-eq item_type ipco ipma off n =
    append_items-eq (replicate 4 0) (meta_items item_type ipco ipma off n)

peek_front : (xs ys : List ℕ) (fault : Err) → peek (length xs) (stream_of (xs ++ ys) fault) ≡ ok xs
unfolding peek
peek_front xs ys fault = ground (arith, length-append xs ys, take-length_append xs ys)

full_box_zeros :
    (ys : List ℕ) → read_full_box (fresh (replicate 4 0 ++ ys)) ≡ ok (no_flags, fresh ys)
unfolding read_full_box skip discard full_box_of be
full_box_zeros ys =
    ap
      (λ r. elim r [
        | ok buf ↦ ok (full_box_of buf, skip 4 (fresh (replicate 4 0 ++ ys)))
        | err e ↦ err (short_full_box e)
      ])
      (peek_front (replicate 4 0) ys eof)

-- Version and flags, and the size of an "hdlr" box behind them.
abbrev meta_front : List ℕ
meta_front = 0 ∷ 0 ∷ 0 ∷ 0 ∷ 0 ∷ 0 ∷ 0 ∷ 33 ∷ []

not_quick_time : (ys : List ℕ) → is_quick_time (fresh (meta_front ++ ys)) ≡ false
unfolding is_quick_time
not_quick_time ys =
    ap (λ r. elim r [ ok buf ↦ same_bytes (take 4 (drop 4 buf)) (tag "hdlr") | err _ ↦ false ])
      (peek_front meta_front ys eof)

plain_full_box :
    (ys : List ℕ)
    → is_quick_time (fresh (replicate 4 0 ++ ys)) ≡ false
    → meta_full_box (fresh (replicate 4 0 ++ ys)) ≡ ok ((no_flags, false), fresh ys)
unfolding meta_full_box
plain_full_box ys q =
    rw (meta_full_box, q) (after (λ full br. ok ((full, false), br)) (full_box_zeros ys))

-- What "meta" holds is its children.
parse_meta_children :
    (ys : List ℕ) (bs : List Box)
    → is_quick_time (fresh (replicate 4 0 ++ ys)) ≡ false
    → child_boxes (fresh ys) ≡ ok (bs, fresh [])
    → parse_meta (fresh (replicate 4 0 ++ ys))
      ≡ ok (record { full = no_flags; quick_time = false; children = bs }, fresh [])
unfolding parse_meta
parse_meta_children ys bs q e =
    after
      (λ head br. elim (child_boxes br) [
        | ok (bs', br') ↦ ok (record { full = head.0; quick_time = head.1; children = bs' }, br')
        | err x ↦ err x
      ])
      (plain_full_box ys q)
    ∙ after (λ bs' br. ok (record { full = no_flags; quick_time = false; children = bs' }, br)) e

Fits-meta_items :
    (a b c d off n : ℕ) (its : List Item) (ipma : List ℕ)
    → total_length its + length ipma + 35 < 2 ^ 32
    → All Fits its
    → All Fits (meta_items (a ∷ b ∷ c ∷ d ∷ []) (encode_boxes its) ipma off n)
unfolding hdlr_body pitm_body iinf_body iloc_body
Fits-meta_items a b c d off n its ipma h f = (
  record { four = refl; size = omega arith },
  (
    record { four = refl; size = omega arith },
    (
      record { four = refl; size = omega arith },
      (
        record { four = refl; size = omega arith },
        (
          record {
            four = refl;
            size =
                omega (arith, length-iprp_body (encode_boxes its) ipma, length-encode_boxes its f);
          },
          tt,
        ),
      ),
    ),
  ),
)

-- The children of the "meta" box of an item of the type `item_type`.
abbrev pub children_of : List ℕ → List Item → List ℕ → ℕ → ℕ → List Box
children_of item_type its ipma off n =
    boxes_at 0 (meta_items item_type (encode_boxes its) ipma off n)

pub parse_body_meta :
    (fuel a b c d off n : ℕ) (its : List Item) (ipma : List ℕ)
    → total_length its + length ipma + 191 < 2 ^ 32
    → All Fits its
    → parse_body
        (suc fuel)
        (tag "meta")
        (stream_of (meta_body (a ∷ b ∷ c ∷ d ∷ []) (encode_boxes its) ipma off n) eof)
      ≡ ok (
          Boxes.meta (record {
            full = no_flags;
            quick_time = false;
            children = children_of (a ∷ b ∷ c ∷ d ∷ []) its ipma off n;
          }))
unfolding parse_body is_quick_time be_bytes
parse_body_meta fuel a b c d off n its ipma h f =
    let items = meta_items (a ∷ b ∷ c ∷ d ∷ []) (encode_boxes its) ipma off n in
    let kids = child_boxes_items items (Fits-meta_items a b c d off n its ipma (omega arith) f) (
      unfold hdlr_body in
      unfold pitm_body in
      unfold iinf_body in
      unfold iloc_body in
      omega (arith, length-iprp_body (encode_boxes its) ipma, length-encode_boxes its f)) in
    run_as_box Boxes.meta parse_meta _ _ (fresh []) (
      ap (λ xs. parse_meta (fresh xs))
        (meta_body-eq (a ∷ b ∷ c ∷ d ∷ []) (encode_boxes its) ipma off n)
      ∙ parse_meta_children (encode_boxes items) (boxes_at 0 items)
          (unfold hdlr_body in unfold encode_boxes in unfold encode_box in not_quick_time _) kids)

pub length-meta_body :
    (a b c d off n : ℕ) (ipco ipma : List ℕ)
    → length (meta_body (a ∷ b ∷ c ∷ d ∷ []) ipco ipma off n) ≡ length ipco + length ipma + 151
unfolding meta_body hdlr_body pitm_body iinf_body iloc_body
length-meta_body a b c d off n ipco ipma =
    let z = replicate 4 0 in
    let h = append_box z (tag "hdlr") hdlr_body in
    let p = append_box h (tag "pitm") pitm_body in
    let i = append_box p (tag "iinf") (iinf_body (a ∷ b ∷ c ∷ d ∷ [])) in
    let l = append_box i (tag "iloc") (iloc_body off n) in
    omega (
      arith,
      length-append_box z (tag "hdlr") hdlr_body refl,
      length-append_box h (tag "pitm") pitm_body refl,
      length-append_box p (tag "iinf") (iinf_body (a ∷ b ∷ c ∷ d ∷ [])) refl,
      length-append_box i (tag "iloc") (iloc_body off n) refl,
      length-append_box l (tag "iprp") (iprp_body ipco ipma) refl,
      length-iprp_body ipco ipma,
    )
