-- ===== src/Bmff/Reader/Items.antt =====
-- One box that is written as media/heif/bmff/bmff.go reads it: its header and its body.
use go.Common.{
  ℕ, ◌+◌, ◌-◌, ◌%◌, ◌^◌, ◌≤◌, ◌<◌, ◌≡◌, refl, ap, ◌∙◌, arith, false, List, [], ◌∷◌, ◌++◌,
  append_assoc, length, length-append, take-length_append, drop-length_append, take_of_le,
  Bool-cases, inl, inr, ◌⊎◌,
}
use go.Bmff.Stream.{Err, ok, Stream, Result, read_full, be}
use go.Bmff.Encode.{
  be_bytes, length-be_bytes, be_four, be_eight, Item, header_length, box_length, encode_box, Fits,
}
use go.Bmff.Reader.{
  Header, Box, Reader, unread, limited, with_full, plain, read_header, size_switch, long_box,
  sized_box, read_box, skip_rest, copy_rest, body_stream, consume, read_all, read_prealloc,
  read_body,
}

abbrev pub stream_of : List ℕ → Err → Stream
stream_of bytes fault = record { bytes = bytes; fault = fault }

read_full_front :
    (n : ℕ) (xs ys : List ℕ) (fault : Err)
    → length xs ≡ n
    → read_full n (stream_of (xs ++ ys) fault) ≡ (ok xs, stream_of ys fault)
unfolding read_full
read_full_front n xs ys fault e =
    rw (← e)
      (ground (arith, length-append xs ys, take-length_append xs ys, drop-length_append xs ys))

-- The box that is read where `it` is written at the offset `at`.
abbrev pub box_at : ℕ → Item → Box
box_at at it = record {
  header = record {
    size = box_length it;
    box_type = it.box_type;
    offset = at;
    header_size = header_length it;
  };
  slurp = it.body;
}

abbrev pub boxes_at : ℕ → List Item → List Box
boxes_at at [] = []
boxes_at at (it ∷ its) = box_at at it ∷ boxes_at (at + box_length it) its

-- The reader behind the header of `it`.
abbrev pub opened : Item → List ℕ → Reader → Reader
opened it rest r = record r {
  stream = stream_of (it.body ++ rest) r.stream.fault;
  pos = (r.pos + box_length it) % 2 ^ 64;
  last = limited (length it.body);
}

with_full_front :
    (n : ℕ) (xs ys : List ℕ) (r : Reader) (k : List ℕ → Reader → Result Header × Reader)
    → r.stream.bytes ≡ xs ++ ys
    → length xs ≡ n
    → with_full n r k ≡ k xs (record r { stream = stream_of ys r.stream.fault })
with_full_front n xs ys r k e l =
    rw (read, with_full) (ap (λ p. k xs (record r { stream = p.1 })) read)
  where
    read : read_full n r.stream ≡ (ok xs, stream_of ys r.stream.fault)
    read = ap (λ b. read_full n (stream_of b r.stream.fault)) e ∙ read_full_front n xs ys _ l

-- The reader behind a header, over the bytes that are left.
abbrev behind : List ℕ → Reader → Reader
behind ys r = record r { stream = stream_of ys r.stream.fault }

read_front :
    (size ty ys : List ℕ) (r : Reader)
    → r.stream.bytes ≡ size ++ (ty ++ ys)
    → length size ≡ 4
    → length ty ≡ 4
    → read_header r ≡ size_switch (be size) ty (behind ys r)
unfolding read_header
read_front size ty ys r e l1 l2 =
    with_full_front 4 size (ty ++ ys) r (λ size' r'. with_full 4 r' (size_switch (be size'))) e l1
    ∙ with_full_front 4 ty ys (behind (ty ++ ys) r) (size_switch (be size)) refl l2

sized_box_fits :
    (size header_size : ℕ) (ty : List ℕ) (r : Reader)
    → header_size ≤ size
    → sized_box size header_size ty r ≡ (
      ok (record { size = size; box_type = ty; offset = r.pos; header_size = header_size }),
      record r { pos = (r.pos + size) % 2 ^ 64; last = limited (size - header_size) },
    )
unfolding sized_box
sized_box_fits size header_size ty r h = ground arith

switch_small :
    (size : ℕ) (ty : List ℕ) (r : Reader) → 8 ≤ size → size_switch size ty r ≡ sized_box size 8 ty r
unfolding size_switch
switch_small size ty r h = ground arith

switch_large :
    (size : ℕ) (ty ys : List ℕ) (r : Reader)
    → r.stream.bytes ≡ be_bytes 8 size ++ ys
    → size < 2 ^ 63
    → size_switch 1 ty r ≡ sized_box size 16 ty (behind ys r)
unfolding size_switch long_box
switch_large size ty ys r e h =
    with_full_front 8 (be_bytes 8 size) ys r (long_box ty) e (length-be_bytes 8 size)
    ∙ ground (arith, be_eight size)

pub read_header_item :
    (it : Item) (rest : List ℕ) (r : Reader)
    → Fits it
    → r.stream.bytes ≡ encode_box it ++ rest
    → read_header r ≡ (ok (box_at r.pos it).header, opened it rest r)
unfolding encode_box
read_header_item it rest r f e = elim (Bool-cases it.large) [
  | inl large ↦ ground (
    arith,
    read_front (be_bytes 4 1) ty (be_bytes 8 size ++ (it.body ++ rest)) r,
    switch_large size ty (it.body ++ rest) (behind (be_bytes 8 size ++ (it.body ++ rest)) r) refl,
    sized_box_fits size 16 ty (behind (it.body ++ rest) r),
    be_four 1 (omega arith),
    length-be_bytes 4 1,
    append_assoc (be_bytes 4 1) (ty ++ (be_bytes 8 size ++ it.body)) rest,
    append_assoc ty (be_bytes 8 size ++ it.body) rest,
    append_assoc (be_bytes 8 size) it.body rest,
  )
  | inr small ↦ ground (
    arith,
    read_front (be_bytes 4 size) ty (it.body ++ rest) r,
    switch_small size ty (behind (it.body ++ rest) r),
    sized_box_fits size 8 ty (behind (it.body ++ rest) r),
    be_four size,
    length-be_bytes 4 size,
    append_assoc (be_bytes 4 size) (ty ++ it.body) rest,
    append_assoc ty it.body rest,
  )
]
  where
    ty : List ℕ
    ty = it.box_type

    size : ℕ
    size = box_length it

pub read_box_item :
    (it : Item) (rest : List ℕ) (r : Reader)
    → Fits it
    → (r.last ≡ unread) ⊎ (r.last ≡ limited 0)
    → r.no_more ≡ false
    → r.stream.bytes ≡ encode_box it ++ rest
    → read_box plain r ≡ (ok (box_at r.pos it).header, opened it rest r)
unfolding read_box skip_rest copy_rest
read_box_item it rest r f l m e = ground (
  arith,
  read_header_item it rest r f e,
  read_header_item it rest (record r { last = limited 0 }) f e,
)

-- Both ways of reading a body give all of one that is there.
pub read_body_item :
    (it : Item) (rest : List ℕ) (r : Reader)
    → read_body (box_at r.pos it).header (opened it rest r) ≡ (
      ok it.body,
      record (opened it rest r) { stream = stream_of rest r.stream.fault; last = limited 0 },
    )
unfolding read_body body_stream consume read_all read_prealloc read_full
read_body_item it rest r = ground (
  arith,
  length-append it.body rest,
  take-length_append it.body rest,
  drop-length_append it.body rest,
  take_of_le (length it.body) it.body,
)
