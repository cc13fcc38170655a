-- ===== src/Bmff/Reader/Seek.antt =====
-- `skipRest` of media/heif/bmff/bmff.go: seeking past the rest of a box against reading it.
use go.Common.{
  ℕ, ◌-◌, ◌≤◌, ◌<◌, ◌≡◌, ◌⊎◌, refl, sym, ap, ◌∙◌, arith, [], length, drop-drop, drop_of_le,
  if◌then◌else◌, none, some, dec_le,
}
use go.Bmff.Stream.{eof, ok, err, read_full}
use go.Bmff.Reader.{
  Header, Reader, Last, unread, open_ended, limited, Source, plain, read_header, read_box,
  skip_rest, copy_rest,
}

-- At the end of the input no header is read, and the error is the input's own.
read_header_at_end : (r : Reader) → r.stream.bytes ≡ [] → (read_header r).0 ≡ err r.stream.fault
unfolding read_header read_full
read_header_at_end r e = ground arith

skip_rest_inside :
    (src : Source) (n : ℕ) (r : Reader)
    → n ≤ length r.stream.bytes
    → skip_rest src n r ≡ skip_rest plain n r
unfolding skip_rest copy_rest
skip_rest_inside src n r h =
    ground (arith, drop-drop (n - src.buffered) src.buffered r.stream.bytes)

-- The two states and errors in which skipping past the end of the input can end.
skip_rest_past :
    (src : Source) (n : ℕ) (r : Reader)
    → length r.stream.bytes < n
    → ((skip_rest src n r).1.stream.bytes ≡ [])
      × ((skip_rest src n r).1.stream.fault ≡ r.stream.fault)
      × (((skip_rest src n r).0 ≡ none) ⊎ ((skip_rest src n r).0 ≡ some r.stream.fault))
unfolding skip_rest copy_rest
skip_rest_past src n r h =
    ground
      (arith, drop-drop (n - src.buffered) src.buffered r.stream.bytes, drop_of_le n r.stream.bytes)

past_end :
    (src : Source) (n : ℕ) (r : Reader)
    → r.last ≡ limited n
    → length r.stream.bytes < n
    → (read_box src r).0 ≡ (if r.no_more then err eof else err r.stream.fault)
unfolding read_box
past_end src n r q h =
    ground (arith, skip_rest_past src n r h, read_header_at_end (skip_rest src n r).1)

-- The same answer as by reading, and after a box also the same state.
abbrev SameBox : Source → Reader → Type 0
SameBox src r =
    ((read_box src r).0 ≡ (read_box plain r).0)
    × ((h : Header) (r' : Reader) → read_box plain r ≡ (ok h, r') → read_box src r ≡ (ok h, r'))

SameBox-of_eq : (src : Source) (r : Reader) → read_box src r ≡ read_box plain r → SameBox src r
SameBox-of_eq src r e = (ap (λ p. p.0) e, λ h r' q. e ∙ q)

same_after : (last : Last) (src : Source) (r : Reader) → r.last ≡ last → SameBox src r
same_after unread src r q = SameBox-of_eq src r (unfold read_box in ground arith)
same_after open_ended src r q = SameBox-of_eq src r (unfold read_box in ground arith)
same_after (limited n) src r q = elim (dec_le n (length r.stream.bytes)) [
  | yes inside ↦
      SameBox-of_eq src r (unfold read_box in ground (arith, skip_rest_inside src n r inside))
  | no past ↦
      let p = past_end src n r q (omega arith) in
      let p' = past_end plain n r q (omega arith) in (p ∙ sym p', λ h r' e. ground arith)
]

-- Whether the source can seek, whether a seek succeeds and how much is buffered cannot be told from
-- the boxes: `ReadBox` gives the result that it gives by reading, and after a box also the state.
pub read_box_seek :
    (src : Source) (r : Reader)
    → ((read_box src r).0 ≡ (read_box plain r).0)
      × ((h : Header) (r' : Reader) → read_box plain r ≡ (ok h, r') → read_box src r ≡ (ok h, r'))
read_box_seek src r = same_after r.last src r refl
