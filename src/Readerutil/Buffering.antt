-- ===== src/Readerutil/Buffering.antt =====
-- `bufReaderAt` of readerutil/bufreaderat.go: random access to what a reader gives in order.
use go.Common.{
  ℕ, ◌+◌, ◌-◌, ◌%◌, ◌^◌, ◌||◌, ◌≤◌, ◌<◌, ◌≡◌, ◌↔◌, refl, sym, ap, subst, ◌∙◌, arith, true, false,
  Option, none, some, List, [], ◌∷◌, ◌++◌, ◌==◌, leb, if◌then◌else◌, length, take, drop, Bool-cases,
  inl, inr, ◌⊎◌, append-nil, append_assoc, length-append, length-take, length-drop,
  take-append-drop, take-append_le, drop-append_le, take_of_le, drop_of_le,
}
use native.Mathlib.Nat.{mod-eq_of_lt}
use go.Readerutil.Parts.{ReadErr, eof, unexpected_eof}

-- An `io.Reader`: the bytes that it still gives, and the error behind them.
pub record Stream : Type 0 where
  pub bytes : List ℕ
  pub fault : ReadErr

-- The error of `io.ReadFull` where the bytes end: `io.EOF` in the middle is another error.
unfoldable pub cut_short : List ℕ → ReadErr → ReadErr
cut_short (_ ∷ _) eof = unexpected_eof
cut_short _ e = e

-- `io.ReadFull` into `n` bytes: those that are read, and the error.
unfoldable pub read_full : ℕ → Stream → List ℕ × Option ReadErr × Stream
unfolding cut_short
read_full n s =
    if leb n (length s.bytes)
    then (take n s.bytes, none, record s { bytes = drop n s.bytes })
    else (s.bytes, some (cut_short s.bytes s.fault), record s { bytes = [] })

pub record BufReaderAt : Type 0 where
  pub r : Stream
  pub buf : List ℕ

unfoldable pub new_buffering_reader_at : Stream → BufReaderAt
new_buffering_reader_at r = record { r = r; buf = [] }

-- The reader behind the first `if` of `ReadAt`, with the error of `ReadFull`. The end and `need` are
-- the 64 bits of an `int64`: one of 2 ^ 63 or more is negative.
unfoldable pub fill_to : ℕ → BufReaderAt → BufReaderAt × Option ReadErr
unfolding read_full
fill_to end_off br =
    let need = (end_off + 2 ^ 64 - length br.buf % 2 ^ 64) % 2 ^ 64 in
    if need == 0 || leb (2 ^ 63) need
    then (br, none)
    else let (got, err, r) = read_full need br.r in (record { r = r; buf = br.buf ++ got }, err)

-- `ReadAt` of `k` bytes: what it copies to the front of the caller's slice, the error, and the reader.
unfoldable pub read_at : BufReaderAt → ℕ → ℕ → List ℕ × Option ReadErr × BufReaderAt
unfolding fill_to
read_at br k off =
    let (br', err) = fill_to ((off + k) % 2 ^ 64) br in
    let got = if leb off (length br'.buf) then take k (drop off br'.buf) else [] in
    (got, if length got == k then none else err, br')

-- All that has been read and all that is still to come are the bytes `all`.
pub record Buffers (all : List ℕ) (br : BufReaderAt) : Type 0 where
  pub split : br.buf ++ br.r.bytes ≡ all

pub new-Buffers : (s : Stream) → Buffers s.bytes (new_buffering_reader_at s)
unfolding new_buffering_reader_at
new-Buffers s = record { split = refl }

-- What is buffered once `end_off` bytes are wanted: those, or all there are, and never less than before.
record Filled (all : List ℕ) (end_off : ℕ) (br : BufReaderAt) (res : BufReaderAt × Option ReadErr)
    : Type 0 where
  keeps : Buffers all res.0
  enough : (end_off ≤ length res.0.buf) ⊎ ((res.0.buf ≡ all) × ((e : ReadErr) × (res.1 ≡ some e)))
  thrifty : (length res.0.buf ≤ length br.buf) ⊎ (length res.0.buf ≤ end_off)

-- What is needed where nothing wraps.
fill_to_lem :
    (end_off : ℕ) (br : BufReaderAt)
    → end_off < 2 ^ 63
    → length br.buf < 2 ^ 63
    → fill_to end_off br ≡ (
        if leb end_off (length br.buf)
        then (br, none)
        else let (got, err, r) = read_full (end_off - length br.buf) br.r in
          (record { r = r; buf = br.buf ++ got }, err))
unfolding fill_to
fill_to_lem end_off br h l = elim (Bool-cases (leb end_off (length br.buf))) [
  | inl there ↦
      let none_needed : ((end_off + 2 ^ 64 - length br.buf % 2 ^ 64) % 2 ^ 64 == 0
            || leb (2 ^ 63) ((end_off + 2 ^ 64 - length br.buf % 2 ^ 64) % 2 ^ 64))
          ≡ true =
        enough end_off (length br.buf) h l (ground (arith, there)) in
      rw (there, none_needed) refl
  | inr wanted ↦
      let less : length br.buf < end_off = ground (arith, wanted) in
      let need : (end_off + 2 ^ 64 - length br.buf % 2 ^ 64) % 2 ^ 64 ≡ end_off - length br.buf =
        omega (arith, h, l, less) in
      let some_needed : (end_off - length br.buf == 0 || leb (2 ^ 63) (end_off - length br.buf))
          ≡ false =
        ground (arith, h, wanted) in
      rw (wanted, need, some_needed) refl
]
  where
    enough :
        (e l : ℕ)
        → e < 2 ^ 63
        → l < 2 ^ 63
        → e ≤ l
        → ((e + 2 ^ 64 - l % 2 ^ 64) % 2 ^ 64 == 0
            || leb (2 ^ 63) ((e + 2 ^ 64 - l % 2 ^ 64) % 2 ^ 64))
          ≡ true
    enough e l h k m = ground (arith, h, k, m)

filled :
    (all : List ℕ) (end_off : ℕ) (br : BufReaderAt)
    → Buffers all br
    → Filled all end_off br (
        if leb end_off (length br.buf)
        then (br, none)
        else let (got, err, r) = read_full (end_off - length br.buf) br.r in
          (record { r = r; buf = br.buf ++ got }, err))
unfolding read_full
filled all end_off br h = elim (Bool-cases (leb end_off (length br.buf))) [
  | inl there ↦
      rw there
        (record { keeps = h; enough = inl (ground (arith, there)); thrifty = inl (omega arith) })
  | inr wanted ↦
      let n = end_off - length br.buf in
      let w : length br.buf < end_off = ground (arith, wanted) in
      elim (Bool-cases (leb n (length br.r.bytes))) [
        | inl all_of ↦
            let l = length-append br.buf (take n br.r.bytes) in
            let t = length-take n br.r.bytes in
            let g : n ≤ length br.r.bytes = ground (arith, all_of) in
            rw (wanted, all_of)
              (record {
                keeps = record {
                  split =
                      append_assoc br.buf (take n br.r.bytes) (drop n br.r.bytes)
                      ∙ ap (λ t. br.buf ++ t) (take-append-drop n br.r.bytes)
                      ∙ h.split;
                };
                enough = inl (omega (arith, l, t, g, w));
                thrifty = inr (omega (arith, l, t, g, w));
              })
        | inr some_of ↦
            let l = length-append br.buf br.r.bytes in
            let g : length br.r.bytes < n = ground (arith, some_of) in
            rw (wanted, some_of)
              (record {
                keeps = record { split = append-nil (br.buf ++ br.r.bytes) ∙ h.split };
                enough = inr (h.split, (cut_short br.r.bytes br.r.fault, refl));
                thrifty = inr (omega (arith, l, g, w));
              })
      ]
]

fill_to-Filled :
    (all : List ℕ) (end_off : ℕ) (br : BufReaderAt)
    → Buffers all br
    → end_off < 2 ^ 63
    → length all < 2 ^ 63
    → Filled all end_off br (fill_to end_off br)
fill_to-Filled all end_off br h e64 l64 =
    let sized : length br.buf < 2 ^ 63 =
      omega (arith, length-append br.buf br.r.bytes, ap length h.split, l64) in
    rw (fill_to_lem end_off br e64 sized) (filled all end_off br h)

-- What `copy` gives of the buffer, where that goes far enough or holds everything.
window :
    (buf rest all : List ℕ) (k off : ℕ)
    → buf ++ rest ≡ all
    → (off + k ≤ length buf) ⊎ (buf ≡ all)
    → (if leb off (length buf) then take k (drop off buf) else []) ≡ take k (drop off all)
window buf rest all k off e (inl far) =
    let inside : leb off (length buf) ≡ true = ground (arith, far) in
    rw (inside, ← e)
      (sym (
        ap (take k) (drop-append_le off buf rest (omega arith))
        ∙ take-append_le k (drop off buf) rest (omega (arith, length-drop off buf))))
window buf rest all k off e (inr whole) = elim (Bool-cases (leb off (length buf))) [
  | inl inside ↦ rw inside (ap (λ t. take k (drop off t)) whole)
  | inr beyond ↦
      let none_left : drop off all ≡ [] =
        drop_of_le off all (ground (arith, beyond, ap length whole)) in
      rw (beyond, none_left) (sym (take_of_le k [] (omega arith)))
]

-- The error is none exactly if all was read, where it would be an error otherwise.
error_iff :
    (n k : ℕ) (err : Option ReadErr)
    → (n ≡ k) ⊎ ((e : ReadErr) × (err ≡ some e))
    → ((if n == k then none else err) ≡ none) ↔ (n ≡ k)
error_iff n k err (inl same) =
    let t : (n == k) ≡ true = ground (arith, same) in rw t (λ _. same, λ _. refl)
error_iff n k err (inr (e, there)) = rw there (ground arith)

-- Where the end that is asked for and all that the reader gives are below 2 ^ 63, so that no `int64`
-- wraps: however much has been read before, `ReadAt` gives the bytes that stand at the offset in all that the
-- reader gives, and no error exactly if those are as many as wanted; what is kept stays true.
pub read_at_lem :
    (all : List ℕ) (br : BufReaderAt) (k off : ℕ)
    → Buffers all br
    → off + k < 2 ^ 63
    → length all < 2 ^ 63
    → ((read_at br k off).0 ≡ take k (drop off all))
      × (((read_at br k off).1 ≡ none) ↔ (length (take k (drop off all)) ≡ k))
      × Buffers all (read_at br k off).2
unfolding read_at
read_at_lem all br k off h e64 l64 =
    let same : (off + k) % 2 ^ 64 ≡ off + k = mod-eq_of_lt (omega (arith, e64)) in
    let f = fill_to-Filled all (off + k) br h e64 l64 in
    let br' = (fill_to (off + k) br).0 in
    let err = (fill_to (off + k) br).1 in
    let got : (if leb off (length br'.buf) then take k (drop off br'.buf) else [])
        ≡ take k (drop off all) =
      window br'.buf br'.r.bytes all k off f.keeps.split
        (elim f.enough [ inl far ↦ inl far | inr (whole, _) ↦ inr whole ]) in
    let lengths = length-take k (drop off br'.buf) in
    let room = length-drop off br'.buf in
    let full : (length (take k (drop off all)) ≡ k) ⊎ ((e : ReadErr) × (err ≡ some e)) =
      elim f.enough [
        | inl far ↦ inl (ap length (sym got) ∙ ground (arith, far, lengths, room))
        | inr (_, failed) ↦ inr failed
      ] in
    rw same (
      got,
      subst
          (λ t.
            ((if length t == k then none else err) ≡ none) ↔ (length (take k (drop off all)) ≡ k))
          (sym got) (error_iff (length (take k (drop off all))) k err full),
      f.keeps,
    )

-- Where nothing wraps either, no call reads further than the furthest end that has been asked for.
pub read_at-thrifty :
    (all : List ℕ) (br : BufReaderAt) (k off bound : ℕ)
    → Buffers all br
    → length br.buf ≤ bound
    → off + k ≤ bound
    → off + k < 2 ^ 63
    → length all < 2 ^ 63
    → length (read_at br k off).2.buf ≤ bound
unfolding read_at
read_at-thrifty all br k off bound h l b e64 l64 =
    let same : (off + k) % 2 ^ 64 ≡ off + k = mod-eq_of_lt (omega (arith, e64)) in
    rw same (elim (fill_to-Filled all (off + k) br h e64 l64).thrifty [
      | inl less ↦ omega (arith, less)
      | inr less ↦ omega (arith, less)
    ])
