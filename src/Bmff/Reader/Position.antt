-- ===== src/Bmff/Reader/Position.antt =====
-- Where `ReadBox` of media/heif/bmff/bmff.go finds its boxes: offsets against the whole input.
use go.Common.{
  ℕ, ◌+◌, ◌-◌, ◌%◌, ◌^◌, ◌≤◌, ◌<◌, ◌≡◌, ◌⊎◌, inl, inr, refl, arith, true, List, length, take, drop,
  length-drop, drop-drop, drop_of_le, none, Option-cases,
}
use go.Bmff.Stream.{Err, ok, be, read_full}
use go.Bmff.Reader.{
  Header, Reader, Last, unread, open_ended, limited, new_reader, consume, Source, read_header,
  read_box, skip_rest, copy_rest, size_switch, sized_box,
}

-- What a header that has been read says of the bytes that it was read from.
pub record Opened (r : Reader) (h : Header) (r' : Reader) : Type 0 where
  pub offset : h.offset ≡ r.pos
  pub box_type : h.box_type ≡ take 4 (drop 4 r.stream.bytes)
  pub wide : (h.header_size ≡ 8) ⊎ (h.header_size ≡ 16)
  pub room : h.header_size ≤ length r.stream.bytes
  pub fault : r'.stream.fault ≡ r.stream.fault
  pub rest : r'.stream.bytes ≡ drop h.header_size r.stream.bytes
  pub next :
      ((r'.last ≡ open_ended) × (r'.no_more ≡ true))
      ⊎ ((r'.last ≡ limited (h.size - h.header_size))
          × (h.header_size ≤ h.size)
          × (r'.pos ≡ (r.pos + h.size) % 2 ^ 64))

sized_box-ok :
    (size header_size : ℕ) (box_type : List ℕ) (r r' : Reader) (h : Header)
    → sized_box size header_size box_type r ≡ (ok h, r')
    → (header_size ≤ size)
      × (h ≡ record { size = size; box_type = box_type; offset = r.pos; header_size = header_size })
      × (r' ≡ record r { pos = (r.pos + size) % 2 ^ 64; last = limited (size - header_size) })
unfolding sized_box
sized_box-ok size header_size box_type r r' h e = ground arith

abbrev behind : ℕ → Reader → Reader
behind n r = record r { stream = record r.stream { bytes = drop n r.stream.bytes } }

size_switch-Opened :
    (size : ℕ) (r : Reader) (h : Header) (r' : Reader)
    → 8 ≤ length r.stream.bytes
    → size_switch size (take 4 (drop 4 r.stream.bytes)) (behind 4 (behind 4 r)) ≡ (ok h, r')
    → Opened r h r'
unfolding size_switch read_full
size_switch-Opened size r h r' l e = ground (
  arith,
  drop-drop 4 4 r.stream.bytes,
  length-drop 8 r.stream.bytes,
  drop-drop 8 8 r.stream.bytes,
  sized_box-ok size 8 (take 4 (drop 4 r.stream.bytes)) (behind 4 (behind 4 r)) r' h,
  sized_box-ok (be (take 8 (drop 4 (drop 4 r.stream.bytes)))) 16 (take 4 (drop 4 r.stream.bytes))
      (behind 8 (behind 4 (behind 4 r))) r' h,
)

pub read_header-Opened :
    (r : Reader) (h : Header) (r' : Reader) → read_header r ≡ (ok h, r') → Opened r h r'
unfolding read_header read_full
read_header-Opened r h r' e =
    ground
      (arith, size_switch-Opened (be (take 4 r.stream.bytes)) r h r', length-drop 4 r.stream.bytes)

-- What skipping the rest of a box leaves.
record Skipped (n : ℕ) (r r' : Reader) : Type 0 where
  pos : r'.pos ≡ r.pos
  no_more : r'.no_more ≡ r.no_more
  fault : r'.stream.fault ≡ r.stream.fault
  rest : r'.stream.bytes ≡ drop n r.stream.bytes

skip_rest-Skipped :
    (src : Source) (n : ℕ) (r r' : Reader) → skip_rest src n r ≡ (none, r') → Skipped n r r'
unfolding skip_rest copy_rest
skip_rest-Skipped src n r r' e =
    ground
      (arith, drop-drop (n - src.buffered) src.buffered r.stream.bytes, drop_of_le n r.stream.bytes)

-- `r` reads `input`, of which the first `c` bytes are gone, and its position is that of the next box.
abbrev Aligned : List ℕ → ℕ → Reader → Type 0
Aligned input c r = elim r.last [
  | unread ↦ r.pos ≡ c
  | open_ended ↦ r.no_more ≡ true
  | limited n ↦ r.pos ≡ (c + n) % 2 ^ 64
]

-- A reader at the end of the input finds no box, so its position no longer matters.
pub record Tracks (input : List ℕ) (r : Reader) : Type 0 where
  pub at : ℕ
  pub inside : at ≤ length input
  pub rest : r.stream.bytes ≡ drop at input
  pub aligned : Aligned input at r ⊎ (at ≡ length input)

-- Where a box stands in the input.
pub record Stands (input : List ℕ) (h : Header) (r' : Reader) : Type 0 where
  pub inside : h.offset + h.header_size ≤ length input
  pub box_type : h.box_type ≡ take 4 (drop (h.offset + 4) input)
  pub body : r'.stream.bytes ≡ drop (h.offset + h.header_size) input

read_header-Stands :
    (input : List ℕ) (r r' : Reader) (h : Header)
    → r.pos ≤ length input
    → r.stream.bytes ≡ drop r.pos input
    → Opened r h r'
    → Stands input h r' × Tracks input r'
read_header-Stands input r r' h l b o =
    let here = drop-drop 4 r.pos input in
    let there = drop-drop h.header_size r.pos input in
    let left = length-drop r.pos input in
    (
      record {
        inside = ground (arith, left);
        box_type = ground (arith, here);
        body = ground (arith, there);
      },
      record {
        at = r.pos + h.header_size;
        inside = ground (arith, left);
        rest = ground (arith, there);
        aligned = ground arith;
      },
    )

start-Tracks :
    (input : List ℕ) (fault : Err)
    → Tracks input (new_reader (record { bytes = input; fault = fault }))
unfolding new_reader
start-Tracks input fault = record { at = 0; inside = omega arith; rest = refl; aligned = inl refl }

-- Reading from the body of the last box, by no more bytes than are left of it and of the input.
abbrev pub Within : ℕ → Reader → Type 0
Within k r =
    (k ≤ length r.stream.bytes)
    × elim r.last [ unread ↦ k ≡ 0 | open_ended ↦ Unit {0} | limited n ↦ k ≤ n ]

consume-Tracks :
    (input : List ℕ) (k : ℕ) {r : Reader} → Within k r → Tracks input r → Tracks input (consume k r)
unfolding consume
consume-Tracks input k {r} w t = record {
  at = t.at + k;
  inside = ground (arith, length-drop t.at input);
  rest = ground (arith, drop-drop k t.at input);
  aligned = ground (arith, length-drop t.at input);
}

-- A header read behind `c` bytes, where the position says so as long as `c` is inside the input.
header_after :
    (input : List ℕ) (c : ℕ) (r r' : Reader) (h : Header)
    → r.stream.bytes ≡ drop c input
    → (c < length input → r.pos ≡ c)
    → read_header r ≡ (ok h, r')
    → Stands input h r' × Tracks input r'
header_after input c r r' h b p e =
    let o = read_header-Opened r h r' e in
    let c_in : c < length input = ground (arith, o, length-drop c input) in
    let at_c = p c_in in read_header-Stands input r r' h (omega arith) (ground arith) o

read_box_after :
    (last : Last) (src : Source) (input : List ℕ) (r r' : Reader) (h : Header)
    → r.last ≡ last
    → length input < 2 ^ 63
    → Tracks input r
    → read_box src r ≡ (ok h, r')
    → Stands input h r' × Tracks input r'
unfolding read_box
read_box_after unread src input r r' h q l t e =
    header_after input t.at r r' h t.rest (ground arith) (ground arith)
read_box_after open_ended src input r r' h q l t e =
    header_after input t.at r r' h t.rest (ground arith) (ground arith)
read_box_after (limited n) src input r r' h q l t e = elim (Option-cases (skip_rest src n r).0) [
  | inl skipped ↦
      let r1 = (skip_rest src n r).1 in
      let s = skip_rest-Skipped src n r r1 (ground arith) in
      header_after input (t.at + n) r1 r' h (ground (arith, drop-drop n t.at input)) (ground arith)
        (ground arith)
  | inr (x, bad) ↦ ground arith
]

-- A reader of `input` after any number of successful `ReadBox` calls, between which any part of the
-- box's body may have been read, and during which the source may answer as it likes.
pub data Reach (input : List ℕ) : Reader → Type 0 where
  start : (fault : Err) → Reach input (new_reader (record { bytes = input; fault = fault }))
  boxed :
      {r : Reader} (src : Source) (h : Header) (r' : Reader)
      → Reach input r
      → read_box src r ≡ (ok h, r')
      → Reach input r'
  taken : {r : Reader} (k : ℕ) → Reach input r → Within k r → Reach input (consume k r)

pub Reach-Tracks :
    (input : List ℕ) {r : Reader} → length input < 2 ^ 63 → Reach input r → Tracks input r
Reach-Tracks input l (start fault) = start-Tracks input fault
Reach-Tracks input l (boxed {r} src h r' p e) =
    (read_box_after r.last src input r r' h refl l (Reach-Tracks input l p) e).1
Reach-Tracks input l (taken k p w) = consume-Tracks input k w (Reach-Tracks input l p)

-- From any reader that has reached this point of an input of less than 2 ^ 63 bytes, a box that
-- `ReadBox` returns stands in the input at its `Offset`: its type is the four bytes behind the four
-- of its size, its whole header lies in the input, and its body is read from behind the header.
pub read_box-Stands :
    (src : Source) (input : List ℕ) {r : Reader} (r' : Reader) (h : Header)
    → length input < 2 ^ 63
    → Reach input r
    → read_box src r ≡ (ok h, r')
    → Stands input h r'
read_box-Stands src input {r} r' h l p e =
    (read_box_after r.last src input r r' h refl l (Reach-Tracks input l p) e).0
