-- ===== src/Bmff/Reader/Children.antt =====
-- `parseAppendBoxes` of media/heif/bmff/bmff.go: what is written as a sequence of boxes is read back.
use go.Common.{
  ℕ, zero, suc, ◌+◌, ◌^◌, ◌≤◌, ◌<◌, ◌≡◌, refl, sym, ap, ◌∙◌, arith, false, List, [], ◌∷◌, ◌++◌,
  append_assoc, append-nil, length, length-append, All, inl, inr, ◌⊎◌,
}
use go.Bmff.Stream.{eof, ok, read_full}
use go.Bmff.Encode.{Item, box_length, encode_box, encode_boxes, Fits, length-encode_box}
use go.Bmff.Reader.{
  Box, Reader, unread, limited, read_header, read_box, skip_rest, copy_rest, new_reader, next_child,
  append_boxes, parse_append_boxes,
}
use go.Bmff.Reader.Items.{stream_of, opened, box_at, boxes_at, read_box_item, read_body_item}

append_boxes_item :
    (fuel : ℕ) (it : Item) (rest : List ℕ) (r : Reader) (acc : List Box)
    → Fits it
    → (r.last ≡ unread) ⊎ (r.last ≡ limited 0)
    → r.no_more ≡ false
    → r.stream.bytes ≡ encode_box it ++ rest
    → append_boxes (suc fuel) r acc
      ≡ append_boxes fuel
          (record (opened it rest r) { stream = stream_of rest r.stream.fault; last = limited 0 })
          (acc ++ (box_at r.pos it ∷ []))
unfolding append_boxes next_child
append_boxes_item fuel it rest r acc f l m e =
    ground (arith, read_box_item it rest r f l m e, read_body_item it rest r)

append_boxes_end :
    (fuel : ℕ) (r : Reader) (acc : List Box)
    → (r.last ≡ unread) ⊎ (r.last ≡ limited 0)
    → r.stream.bytes ≡ []
    → r.stream.fault ≡ eof
    → append_boxes (suc fuel) r acc ≡ ok acc
unfolding append_boxes next_child read_box skip_rest copy_rest read_header read_full
append_boxes_end fuel r acc l b e = ground arith

abbrev pub total_length : List Item → ℕ
total_length [] = 0
total_length (it ∷ its) = box_length it + total_length its

pub length-encode_boxes :
    (its : List Item) → All Fits its → length (encode_boxes its) ≡ total_length its
unfolding encode_boxes
length-encode_boxes [] h = refl
length-encode_boxes (it ∷ its) (f, h) = omega (
  arith,
  length-append (encode_box it) (encode_boxes its),
  length-encode_box it f,
  length-encode_boxes its h,
)

length-le-total_length : (its : List Item) → length its ≤ total_length its
length-le-total_length [] = omega arith
length-le-total_length (it ∷ its) = ground (arith, length-le-total_length its)

append_boxes_items :
    (its : List Item) (fuel : ℕ) (r : Reader) (acc : List Box)
    → All Fits its
    → length its < fuel
    → (r.last ≡ unread) ⊎ (r.last ≡ limited 0)
    → r.no_more ≡ false
    → r.stream ≡ stream_of (encode_boxes its) eof
    → r.pos + total_length its < 2 ^ 64
    → append_boxes fuel r acc ≡ ok (acc ++ boxes_at r.pos its)
append_boxes_items its zero r acc h hf l m e p = absurd (omega arith)
append_boxes_items [] (suc fuel) r acc h hf l m e p =
    append_boxes_end fuel r acc l (unfold encode_boxes in ap (λ s. s.bytes) e) (ap (λ s. s.fault) e)
    ∙ ap ok (sym (append-nil acc))
append_boxes_items (it ∷ its) (suc fuel) r acc (f, h) hf l m e p =
    append_boxes_item fuel it (encode_boxes its) r acc f l m
      (unfold encode_boxes in ap (λ s. s.bytes) e)
    ∙ append_boxes_items its fuel next (acc ++ (box_at r.pos it ∷ [])) h (omega arith) (inr refl) m
        (ap (λ s. stream_of (encode_boxes its) s.fault) e) (omega arith)
    ∙ ap ok (
        append_assoc acc (box_at r.pos it ∷ []) (boxes_at next.pos its)
        ∙ ap (λ n. acc ++ (box_at r.pos it ∷ boxes_at n its)) {x = next.pos}
            {y = r.pos + box_length it} (omega arith))
  where
    next : Reader
    next = record (opened it (encode_boxes its) r) {
      stream = stream_of (encode_boxes its) r.stream.fault;
      last = limited 0;
    }

-- Boxes that are written one after the other, with sizes of 32 or of 64 bits, are read back in order
-- with their types, sizes, offsets and bodies, if they come to less than 2 ^ 64 bytes.
pub parse_append_boxes_items :
    (its : List Item)
    → All Fits its
    → total_length its < 2 ^ 64
    → parse_append_boxes (stream_of (encode_boxes its) eof) ≡ ok (boxes_at 0 its)
unfolding parse_append_boxes new_reader
parse_append_boxes_items its h l =
    append_boxes_items its _ _ [] h
      (omega (arith, length-encode_boxes its h, length-le-total_length its)) (inl refl) refl refl
      (omega arith)
