-- ===== src/Readerutil/Parts/Whole.antt =====
-- `multiRA` of readerutil/multireaderat.go against the bytes of its parts, put together.
use go.Common.{
  ℕ, zero, suc, ◌+◌, ◌-◌, ◌%◌, ◌^◌, ◌≤◌, ◌<◌, ◌≡◌, refl, sym, ap, ◌∙◌, arith, Bool, true, false,
  ltb, ◌==◌, none, inr, List, [], ◌∷◌, ◌++◌, length, take, drop, length-append, length-take,
  length-drop, drop-append_ge, drop_of_le,
}
use go.Readerutil.Parts.{
  SizeReaderAt, OffsetAndSource, read_parts, with_offsets, new_multi_reader_at, finish, contributes,
  first_skip, multi_read_at, multi_source,
}
use go.Readerutil.Parts.Loop.{
  Holds, IsPart, AllHold, concat, Inside, read_parts_lem, read_parts-first, read_parts-full,
}

-- What is known of `sort.Search`: for a test that stays true once it is true, the first index at
-- which it is true, or `n`.
pub record Finds (n : ℕ) (f : ℕ → Bool) (i : ℕ) : Type 0 where
  pub bound : i ≤ n
  pub before : (j : ℕ) → j < i → f j ≡ false
  pub found : i < n → f i ≡ true

abbrev pub Stays : ℕ → (ℕ → Bool) → Type 0
Stays n f = (i j : ℕ) → i ≤ j → j < n → f i ≡ true → f j ≡ true

abbrev pub IsSearch : (ℕ → (ℕ → Bool) → ℕ) → Type 0
IsSearch search = (n : ℕ) (f : ℕ → Bool) → Stays n f → Finds n f (search n f)

-- Each source gives its bytes.
unfoldable pub Sources : List (List ℕ) → List SizeReaderAt → Type 0
Sources [] [] = Unit
Sources (c ∷ cs) (s ∷ ss) = IsPart c s × Sources cs ss
Sources _ _ = ⊥

-- The parts stand one behind the other, from `off` on.
Placed : ℕ → List (List ℕ) → List OffsetAndSource → Type 0
Placed off [] [] = Unit
Placed off (c ∷ cs) (p ∷ ps) = IsPart c p.source × (p.off ≡ off) × Placed (off + length c) cs ps
Placed _ _ _ = ⊥

with_offsets-Placed :
    (off : ℕ) (cs : List (List ℕ)) (ss : List SizeReaderAt)
    → Sources cs ss
    → off + length (concat cs) < 2 ^ 63
    → Placed off cs (with_offsets off ss).0 × ((with_offsets off ss).1 ≡ off + length (concat cs))
unfolding Sources Placed with_offsets
with_offsets-Placed off [] [] h b = (tt, omega arith)
with_offsets-Placed off [] (_ ∷ _) h b = absurd h
with_offsets-Placed off (_ ∷ _) [] h b = absurd h
with_offsets-Placed off (c ∷ cs) (s ∷ ss) (h, hs) b =
    let l = length-append c (concat cs) in
    let e : (off + s.size) % 2 ^ 64 ≡ off + length c = omega (arith, h.sized, l) in
    let (placed, size) = with_offsets-Placed (off + length c) cs ss hs (omega (arith, l)) in
    rw e ((h, refl, placed), omega (arith, size, l))

-- Placed parts, cut at the first that reaches behind the offset `x`.
record Cut (x : ℕ) (ps : List OffsetAndSource) (all : List ℕ) : Type 0 where
  rest : List (List ℕ)
  holds : AllHold rest ps
  inside : Inside (first_skip x ps) rest
  same : drop (first_skip x ps) (concat rest) ≡ all

AllHold-Placed :
    (off : ℕ) (cs : List (List ℕ)) (ps : List OffsetAndSource) → Placed off cs ps → AllHold cs ps
unfolding Placed AllHold
AllHold-Placed off [] [] h = tt
AllHold-Placed off [] (_ ∷ _) h = absurd h
AllHold-Placed off (_ ∷ _) [] h = absurd h
AllHold-Placed off (c ∷ cs) (p ∷ ps) (h, e, hs) = (h, AllHold-Placed (off + length c) cs ps hs)

from_first :
    (i x off : ℕ) (cs : List (List ℕ)) (ps : List OffsetAndSource)
    → Placed off cs ps
    → off ≤ x
    → off + length (concat cs) < 2 ^ 63
    → Finds (length ps) (contributes x ps) i
    → Cut x (drop i ps) (drop (x - off) (concat cs))
unfolding Placed contributes AllHold
from_first zero x off [] [] h o b f = record {
  rest = [];
  holds = tt;
  inside = tt;
  same = drop_of_le x [] (omega arith) ∙ sym (drop_of_le (x - off) [] (omega arith));
}
from_first (suc i) x off [] [] h o b f = absurd (omega (arith, f.bound))
from_first i x off [] (_ ∷ _) h o b f = absurd h
from_first i x off (_ ∷ _) [] h o b f = absurd h
from_first zero x off (c ∷ cs) (p ∷ ps) (h, e, hs) o b f =
    let l = length-append c (concat cs) in
    let reaches : x < off + length c = ground (arith, f.found (omega arith), h.sized, e, l, b) in
    record {
      rest = c ∷ cs;
      holds = (h, AllHold-Placed (off + length c) cs ps hs);
      inside = inr (omega (arith, e, reaches));
      same = ap (λ t. drop (x - t) (c ++ concat cs)) e;
    }
from_first (suc i) x off (c ∷ cs) (p ∷ ps) (h, e, hs) o b f =
    let l = length-append c (concat cs) in
    let behind : off + length c ≤ x = ground (arith, f.before 0 (omega arith), h.sized, e, l, b) in
    let cut = from_first i x (off + length c) cs ps hs behind (omega (arith, l, b)) (record {
      bound = omega (arith, f.bound);
      before = λ j q. f.before (suc j) (omega arith);
      found = λ q. f.found (omega arith);
    }) in
    record {
      rest = cut.rest;
      holds = cut.holds;
      inside = cut.inside;
      same =
          cut.same
          ∙ ap (λ t. drop t (concat cs)) (omega (arith, behind))
          ∙ sym (drop-append_ge (x - off) c (concat cs) (omega (arith, behind)));
    }

-- All parts behind `x` contribute.
contributes-later :
    (x off j : ℕ) (cs : List (List ℕ)) (ps : List OffsetAndSource)
    → Placed off cs ps
    → x < off
    → off + length (concat cs) < 2 ^ 63
    → j < length ps
    → contributes x ps j ≡ true
unfolding Placed contributes
contributes-later x off j [] [] h o b l = absurd (omega arith)
contributes-later x off j [] (_ ∷ _) h o b l = absurd h
contributes-later x off j (_ ∷ _) [] h o b l = absurd h
contributes-later x off zero (c ∷ cs) (p ∷ ps) (h, e, hs) o b l =
    ground (arith, h.sized, e, length-append c (concat cs))
contributes-later x off (suc j) (c ∷ cs) (p ∷ ps) (h, e, hs) o b l =
    contributes-later x (off + length c) j cs ps hs (omega arith)
      (omega (arith, length-append c (concat cs))) (omega arith)

contributes-Stays :
    (x off : ℕ) (cs : List (List ℕ)) (ps : List OffsetAndSource)
    → Placed off cs ps
    → off + length (concat cs) < 2 ^ 63
    → Stays (length ps) (contributes x ps)
unfolding Placed contributes
contributes-Stays x off [] [] h b i j q l t = absurd (omega arith)
contributes-Stays x off [] (_ ∷ _) h b i j q l t = absurd h
contributes-Stays x off (_ ∷ _) [] h b i j q l t = absurd h
contributes-Stays x off (c ∷ cs) (p ∷ ps) h b zero zero q l t = t
contributes-Stays x off (c ∷ cs) (p ∷ ps) h b (suc i) zero q l t = absurd (omega arith)
contributes-Stays x off (c ∷ cs) (p ∷ ps) (h, e, hs) b zero (suc j) q l t =
    let a = length-append c (concat cs) in
    contributes-later x (off + length c) j cs ps hs (ground (arith, t, h.sized, e, a, b))
      (omega (arith, a)) (omega arith)
contributes-Stays x off (c ∷ cs) (p ∷ ps) (h, e, hs) b (suc i) (suc j) q l t =
    contributes-Stays x (off + length c) cs ps hs (omega (arith, length-append c (concat cs))) i j
      (omega arith) (omega arith) t

-- Of a source and one of no bytes behind it, both contribute where the first does.
last-contributes :
    (c : List ℕ) (s t : SizeReaderAt)
    → IsPart c s
    → t.size ≡ 0
    → length c < 2 ^ 63
    → (off i : ℕ) → i < 2
    → contributes off (with_offsets 0 (s ∷ t ∷ [])).0 i ≡ ltb off (length c)
unfolding contributes with_offsets
last-contributes c s t h z b off zero l = ground (arith, h.sized, b)
last-contributes c s t h z b off (suc zero) l = ground (arith, h.sized, z, b)
last-contributes c s t h z b off (suc (suc i)) l = absurd (omega arith)

from_last :
    (c : List ℕ) (s t : SizeReaderAt)
    → IsPart c s
    → t.size ≡ 0
    → length c < 2 ^ 63
    → (k off : ℕ) → off + k ≤ length c
    → (i : ℕ)
    → let ps = (with_offsets 0 (s ∷ t ∷ [])).0 in
      Finds 2 (contributes off ps) i
      → read_parts (suc (suc (length (drop i ps)))) k (drop i ps) k (first_skip off (drop i ps)) []
        ≡ (take k (drop off c), none)
unfolding with_offsets
from_last c s t h z b k off l zero f =
    let before : off < length c =
      ground (arith, f.found (omega arith), last-contributes c s t h z b off 0 (omega arith)) in
    let all : length (take k (drop off c)) ≡ k =
      omega (arith, length-take k (drop off c), length-drop off c, l) in
    let full : (length (take k (drop off c)) == k) ≡ true = ground (arith, all) in
    let ps = (with_offsets 0 (s ∷ t ∷ [])).0 in
    let start : off ≡ off - 0 = omega arith in
    read_parts-first 2 k k (off - 0) c (record { off = 0; source = s }) (drop 1 ps) h
      (omega (arith, before)) (omega (arith, l))
    ∙ rw (← start) (rw full refl)
from_last c s t h z b k off l (suc i) f =
    let past : ltb off (length c) ≡ false =
      sym (last-contributes c s t h z b off 0 (omega arith)) ∙ f.before 0 (omega arith) in
    let nothing : k ≡ 0 = ground (arith, past, l) in
    let ps = (with_offsets 0 (s ∷ t ∷ [])).0 in
    rw nothing (
      read_parts-full (suc (length (drop (suc i) ps))) 0 (first_skip off (drop (suc i) ps))
        (drop (suc i) ps) [])

module _ (search : ℕ → (ℕ → Bool) → ℕ) (is_search : IsSearch search) where
  -- Where `sort.Search` finds the first index at which a test holds that then stays true, `ReadAt` of
  -- sources that each hold some bytes, less than 2 ^ 63 together, gives the bytes that stand at
  -- the offset in all of them put together, and `ErrUnexpectedEOF` exactly if those are too few. A source
  -- must give every read inside it without an error, the read of its last bytes and, of a
  -- source without any bytes, the read of none included: one that gives io.EOF with these, as an
  -- io.ReaderAt may and an empty bytes.Reader does, is left out.
  pub multi_read_at_lem :
      (cs : List (List ℕ)) (ss : List SizeReaderAt) (k off : ℕ)
      → Sources cs ss
      → length (concat cs) < 2 ^ 63
      → multi_read_at search (new_multi_reader_at ss) k off
        ≡ finish k (take k (drop off (concat cs)))
  unfolding multi_read_at new_multi_reader_at
  multi_read_at_lem cs ss k off h b =
      let placed = (with_offsets-Placed 0 cs ss h (omega arith)).0 in
      let ps = (with_offsets 0 ss).0 in
      let finds =
        is_search (length ps) (contributes off ps)
          (contributes-Stays off 0 cs ps placed (omega arith)) in
      let cut =
        from_first (search (length ps) (contributes off ps)) off 0 cs ps placed (omega arith)
          (omega arith) finds in
      let rest = drop (search (length ps) (contributes off ps)) ps in
      read_parts_lem (suc (suc (length rest))) k k (first_skip off rest) cut.rest rest [] cut.holds
        cut.inside (omega arith)
      ∙ ap (λ t. finish k (take k t)) (cut.same ∙ ap (λ n. drop n (concat cs)) (omega arith))

  -- So a `multiRA` is again a source that holds bytes: those of its parts, put together.
  pub multi_source-Holds :
      (cs : List (List ℕ)) (ss : List SizeReaderAt)
      → Sources cs ss
      → length (concat cs) < 2 ^ 63
      → Holds (concat cs) (multi_source search ss)
  unfolding multi_source new_multi_reader_at
  multi_source-Holds cs ss h b = record {
    sized = (with_offsets-Placed 0 cs ss h (omega arith)).1 ∙ omega arith;
    reads = λ k off q. multi_read_at_lem cs ss k off h b ∙ whole k off q;
  }
    where
      whole :
          (k off : ℕ)
          → off + k ≤ length (concat cs)
          → finish k (take k (drop off (concat cs))) ≡ (take k (drop off (concat cs)), none)
      whole k off q =
          ground (arith, length-take k (drop off (concat cs)), length-drop off (concat cs))

  -- A last source of no bytes is never read, so it may fail.
  pub multi_source-Holds_last :
      (c : List ℕ) (s t : SizeReaderAt)
      → IsPart c s
      → t.size ≡ 0
      → length c < 2 ^ 63
      → Holds c (multi_source search (s ∷ t ∷ []))
  unfolding multi_source new_multi_reader_at multi_read_at with_offsets
  multi_source-Holds_last c s t h z b = record {
    sized = omega (arith, h.sized, z, b);
    reads = λ k off l.
        let ps = with_offsets 0 (s ∷ t ∷ []) in
        from_last c s t h z b k off l (search 2 (contributes off ps.0)) (
          is_search 2 (contributes off ps.0) (λ i j q m y.
            last-contributes c s t h z b off j m
            ∙ sym (last-contributes c s t h z b off i (omega arith))
            ∙ y));
  }
