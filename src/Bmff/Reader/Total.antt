-- ===== src/Bmff/Reader/Total.antt =====
-- `parseAppendBoxes` of media/heif/bmff/bmff.go ends on every input: its loop takes eight bytes a
-- round, so the model's fuel does not run out.
use go.Common.{
  ℕ, zero, suc, ◌-◌, ◌≤◌, ◌<◌, ◌≡◌, ◌≢◌, ◌⊎◌, inl, inr, refl, arith, List, [], ◌∷◌, ◌++◌, length,
  length-drop, some,
}
use go.Bmff.Stream.{Err, stuck, ok, err, Stream, Result, read_full, short}
use go.Bmff.Reader.{
  Header, Box, Reader, Last, unread, open_ended, limited, plain, read_header, size_switch, long_box,
  sized_box, read_box, skip_rest, copy_rest, body_stream, consume, new_reader, read_all,
  read_prealloc, read_body, Round, stop, more, failed, next_child, append_boxes, parse_append_boxes,
}
use go.Bmff.Reader.Position.{read_header-Opened}

-- A header takes eight bytes, and keeps the error at the end of the input.
record Shrinks (r r' : Reader) : Type 0 where
  fewer : length r'.stream.bytes < length r.stream.bytes
  fault : r'.stream.fault ≡ r.stream.fault

read_header-Shrinks : (r r' : Reader) (h : Header) → read_header r ≡ (ok h, r') → Shrinks r r'
read_header-Shrinks r r' h e =
    let o = read_header-Opened r h r' e in ground (arith, length-drop h.header_size r.stream.bytes)

read_header-ne-stuck : (r r' : Reader) → r.stream.fault ≢ stuck → read_header r ≢ (err stuck, r')
unfolding read_header size_switch long_box sized_box read_full short
read_header-ne-stuck r r' h = ground arith

skip_rest_keeps :
    (n : ℕ) (r : Reader)
    → (length (skip_rest plain n r).1.stream.bytes ≤ length r.stream.bytes)
      × ((skip_rest plain n r).1.stream.fault ≡ r.stream.fault)
      × (r.stream.fault ≢ stuck → (skip_rest plain n r).0 ≢ some stuck)
unfolding skip_rest copy_rest
skip_rest_keeps n r = ground (arith, length-drop n r.stream.bytes)

read_box-Shrinks :
    (last : Last) (r r' : Reader) (h : Header)
    → r.last ≡ last
    → read_box plain r ≡ (ok h, r')
    → Shrinks r r'
unfolding read_box
read_box-Shrinks unread r r' h q e = ground (arith, read_header-Shrinks r r' h)
read_box-Shrinks open_ended r r' h q e = ground (arith, read_header-Shrinks r r' h)
read_box-Shrinks (limited n) r r' h q e =
    ground (arith, skip_rest_keeps n r, read_header-Shrinks (skip_rest plain n r).1 r' h)

read_box-ne-stuck :
    (last : Last) (r r' : Reader)
    → r.last ≡ last
    → r.stream.fault ≢ stuck
    → read_box plain r ≢ (err stuck, r')
unfolding read_box
read_box-ne-stuck unread r r' q h = ground (arith, read_header-ne-stuck r r')
read_box-ne-stuck open_ended r r' q h = ground (arith, read_header-ne-stuck r r')
read_box-ne-stuck (limited n) r r' q h =
    ground (arith, skip_rest_keeps n r, read_header-ne-stuck (skip_rest plain n r).1 r')

body_stream-ne-stuck : (r : Reader) → r.stream.fault ≢ stuck → (body_stream r).fault ≢ stuck
unfolding body_stream
body_stream-ne-stuck r h = ground arith

read_all-ne-stuck : (s : Stream) → s.fault ≢ stuck → read_all s ≢ err stuck
unfolding read_all
read_all-ne-stuck s h = ground arith

read_prealloc-ne-stuck : (n : ℕ) (s : Stream) → s.fault ≢ stuck → read_prealloc n s ≢ err stuck
unfolding read_prealloc read_full short
read_prealloc-ne-stuck n s h = ground arith

read_body-ne-stuck :
    (h : Header) (r : Reader) → r.stream.fault ≢ stuck → (read_body h r).0 ≢ err stuck
unfolding read_body
read_body-ne-stuck h r f = ground (
  arith,
  body_stream-ne-stuck r f,
  read_all-ne-stuck (body_stream r),
  read_prealloc-ne-stuck (h.size - h.header_size) (body_stream r),
)

read_body_keeps :
    (h : Header) (r : Reader)
    → (length (read_body h r).1.stream.bytes ≤ length r.stream.bytes)
      × ((read_body h r).1.stream.fault ≡ r.stream.fault)
unfolding read_body consume
read_body_keeps h r = (rw length-drop (omega arith), refl)

read_cases :
    (p : Result Header × Reader)
    → ((h : Header) × (r : Reader) × (p ≡ (ok h, r)))
      ⊎ ((e : Err) × (r : Reader) × (p ≡ (err e, r)))
read_cases (ok h, r) = inl (h, r, refl)
read_cases (err e, r) = inr (e, r, refl)

Round-cases :
    (p : Round)
    → (p ≡ stop) ⊎ (((b : Box) × (r : Reader) × (p ≡ more b r)) ⊎ ((e : Err) × (p ≡ failed e)))
Round-cases stop = inl refl
Round-cases (more b r) = inr (inl (b, r, refl))
Round-cases (failed e) = inr (inr (e, refl))

next_child_more : (r r' : Reader) (b : Box) → next_child r ≡ more b r' → Shrinks r r'
unfolding next_child
next_child_more r r' b e = elim (read_cases (read_box plain r)) [
  | inl (h, r1, q) ↦ ground (arith, read_box-Shrinks r.last r r1 h refl q, read_body_keeps h r1)
  | inr (x, r1, q) ↦ ground arith
]

next_child-ne-stuck : (r : Reader) → r.stream.fault ≢ stuck → next_child r ≢ failed stuck
unfolding next_child
next_child-ne-stuck r f = elim (read_cases (read_box plain r)) [
  | inl (h, r1, q) ↦ ground (arith, read_box-Shrinks r.last r r1 h refl q, read_body-ne-stuck h r1)
  | inr (x, r1, q) ↦ ground (arith, read_box-ne-stuck r.last r r1 refl f)
]

append_boxes_more :
    (fuel : ℕ) (r r' : Reader) (acc : List Box) (b : Box)
    → next_child r ≡ more b r'
    → append_boxes fuel r' (acc ++ (b ∷ [])) ≢ err stuck
    → append_boxes (suc fuel) r acc ≢ err stuck
unfolding append_boxes
append_boxes_more fuel r r' acc b q h = rw (q, append_boxes) h

append_boxes-ne-stuck :
    (fuel : ℕ) (r : Reader) (acc : List Box)
    → r.stream.fault ≢ stuck
    → length r.stream.bytes < fuel
    → append_boxes fuel r acc ≢ err stuck
append_boxes-ne-stuck zero r acc h l = absurd (omega arith)
append_boxes-ne-stuck (suc fuel) r acc h l = elim (Round-cases (next_child r)) [
  | inl q ↦ unfold append_boxes in ground arith
  | inr (inl (b, r', q)) ↦
      let s = next_child_more r r' b q in
      let rest = append_boxes-ne-stuck fuel r' (acc ++ (b ∷ [])) (rw s.fault h) (omega arith) in
      append_boxes_more fuel r r' acc b q rest
  | inr (inr (e, q)) ↦ let n = next_child-ne-stuck r h in unfold append_boxes in ground arith
]

-- `parseAppendBoxes` ends on every input: with the fuel that the model gives it, the loop never
-- runs out, whatever bytes it reads and whatever error they end in.
pub parse_append_boxes-ne-stuck : (s : Stream) → s.fault ≢ stuck → parse_append_boxes s ≢ err stuck
unfolding parse_append_boxes new_reader
parse_append_boxes-ne-stuck s h =
    append_boxes-ne-stuck (suc (length s.bytes)) (new_reader s) [] h (omega arith)
