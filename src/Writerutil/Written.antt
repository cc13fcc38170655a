-- ===== src/Writerutil/Written.antt =====
-- `Write` of writerutil/writerutil.go: all that it does to what is kept.
use go.Common.{
  ℕ, zero, suc, ◌+◌, ◌-◌, ◌≤◌, ◌<◌, ◌≡◌, refl, sym, ap, ap₂, subst, ◌∙◌, arith, List, [], ◌∷◌, ◌++◌,
  append_assoc, append-nil, leb, length, take, drop, min, length-append, length-take, length-drop,
  take-append-drop, take_of_le, drop_of_le, take-append_ge, drop-append_le, drop-append_ge,
  drop-drop, Bool-cases, inl, inr,
}
use go.Writerutil.{PrefixSuffixSaver, fill, overwrite_round, copied, overwrite}
use go.Writerutil.Saved.{last, ordered, IsFull, overwrite_round-IsFull, ordered-overwrite_round}

-- `fill` cuts the old bytes and the new ones at `n`.
pub fill_lem :
    (n : ℕ) (dst p : List ℕ)
    → length dst ≤ n
    → fill n dst p ≡ (take n (dst ++ p), drop n (dst ++ p))
unfolding fill
fill_lem n dst p h = elim (Bool-cases (leb (length p) (n - length dst))) [
  | inl fits ↦ ground (
    arith,
    fits,
    take-append_ge n dst p h,
    drop-append_ge n dst p h,
    take_of_le (length p) p,
    take_of_le (n - length dst) p,
    drop_of_le (length p) p,
    drop_of_le (n - length dst) p,
    append-nil dst,
  )
  | inr long ↦
      ground (arith, long, take-append_ge n dst p h, drop-append_ge n dst p h, append-nil dst)
]

record Overwritten (p : List ℕ) (w w' : PrefixSuffixSaver) : Type 0 where
  same_n : w'.n ≡ w.n
  same_prefix : w'.prefix ≡ w.prefix
  counted : w'.skipped ≡ w.skipped + length p
  full : IsFull w'
  kept : ordered w' ≡ drop (length p) (ordered w) ++ p

pub length-ordered : (w : PrefixSuffixSaver) → length (ordered w) ≡ length w.suffix
length-ordered w = omega (
  arith,
  length-append (drop w.suffix_off w.suffix) (take w.suffix_off w.suffix),
  length-drop w.suffix_off w.suffix,
  length-take w.suffix_off w.suffix,
)

pub is_nil : (p : List ℕ) → length p ≡ 0 → p ≡ []
is_nil [] h = refl
is_nil (_ ∷ _) h = absurd (omega arith)

-- One round and what a loop does after it.
overwrite_step :
    (p : List ℕ) (w w' : PrefixSuffixSaver)
    → length p ≤ w.n
    → IsFull w
    → Overwritten (drop (copied p w) p) (overwrite_round p w) w'
    → Overwritten p w w'
unfolding overwrite_round
overwrite_step p w w' hn h o =
    let k = copied p w in
    let old = ordered w in
    let l = length-drop k p in
    let lo = length-ordered w in
    record {
      same_n = o.same_n;
      same_prefix = o.same_prefix;
      counted = omega (arith, o.counted, l);
      full = o.full;
      kept =
          o.kept
          ∙ ap (λ t. drop (length (drop k p)) t ++ drop k p) (ordered-overwrite_round p w h)
          ∙ ap (λ t. t ++ drop k p)
              (drop-append_le (length (drop k p)) (drop k old) (take k p)
                (omega (arith, l, length-drop k old, lo, h.full)))
          ∙ append_assoc (drop (length (drop k p)) (drop k old)) (take k p) (drop k p)
          ∙ ap₂ (λ t u. t ++ u)
              (drop-drop (length (drop k p)) k old ∙ ap (λ i. drop i old) (omega (arith, l)))
              (take-append-drop k p);
    }

overwrite_lem :
    (fuel : ℕ) (p : List ℕ) (w : PrefixSuffixSaver)
    → length p ≤ fuel
    → length p ≤ w.n
    → IsFull w
    → Overwritten p w (overwrite fuel p w)
unfolding overwrite overwrite_round
overwrite_lem zero [] w hf hn h = record {
  same_n = refl;
  same_prefix = refl;
  counted = omega arith;
  full = h;
  kept = sym (append-nil (ordered w));
}
overwrite_lem zero (c ∷ p) w hf hn h = absurd (omega arith)
overwrite_lem (suc fuel) [] w hf hn h = record {
  same_n = refl;
  same_prefix = refl;
  counted = omega arith;
  full = h;
  kept = sym (append-nil (ordered w));
}
overwrite_lem (suc fuel) (c ∷ p) w hf hn h =
    let k = copied (c ∷ p) w in
    let l = length-drop k (c ∷ p) in
    overwrite_step (c ∷ p) w _ hn h (
      overwrite_lem fuel (drop k (c ∷ p)) (overwrite_round (c ∷ p) w)
        (omega (arith, l, h.full, h.inside)) (omega (arith, l))
        (overwrite_round-IsFull (c ∷ p) w h))

-- What is kept of `xs`, when the writer keeps `n` bytes at each end.
pub record Keeps (n : ℕ) (xs : List ℕ) (w : PrefixSuffixSaver) : Type 0 where
  pub size : w.n ≡ n
  pub front : w.prefix ≡ take n xs
  pub back : ordered w ≡ last n (drop n xs)
  pub counted : w.skipped ≡ length (drop n xs) - n
  pub inside : w.suffix_off < n
  pub start : w.skipped ≡ 0 → w.suffix_off ≡ 0

pub length-last : (n : ℕ) (xs : List ℕ) → length (last n xs) ≡ min n (length xs)
length-last n xs = omega (arith, length-drop (length xs - n) xs)

pub last_of_le : (n : ℕ) (xs : List ℕ) → length xs ≤ n → last n xs ≡ xs
last_of_le n xs h = ap (λ k. drop k xs) {y = 0} (omega arith)

-- The ring after the loop, whether or not it was full.
pub record Settled (n : ℕ) (q : List ℕ) (w w' : PrefixSuffixSaver) : Type 0 where
  pub size : w'.n ≡ n
  pub same_prefix : w'.prefix ≡ w.prefix
  pub counted : w'.skipped ≡ w.skipped + length q
  pub back : ordered w' ≡ last n (ordered w ++ q)
  pub inside : w'.suffix_off < n
  pub start : w'.skipped ≡ 0 → w'.suffix_off ≡ 0

settle_full :
    (n : ℕ) (q : List ℕ) (w : PrefixSuffixSaver)
    → w.n ≡ n
    → length q ≤ n
    → 0 < length q
    → IsFull w
    → Settled n q w (overwrite (length q) q w)
settle_full n q w e hq h0 h =
    let o = overwrite_lem (length q) q w (omega arith) (omega arith) h in
    let lo = length-ordered w in
    record {
      size = o.same_n ∙ e;
      same_prefix = o.same_prefix;
      counted = o.counted;
      back =
          o.kept
          ∙ sym (drop-append_le (length q) (ordered w) q (omega (arith, lo, h.full)))
          ∙ ap (λ k. drop k (ordered w ++ q))
              (omega (arith, lo, h.full, length-append (ordered w) q));
      inside = omega (arith, o.full.inside, o.same_n);
      start = λ z. absurd (omega (arith, z, o.counted));
    }

settle_short :
    (n : ℕ) (w : PrefixSuffixSaver)
    → w.n ≡ n
    → length w.suffix ≤ n
    → w.suffix_off < n
    → (w.skipped ≡ 0 → w.suffix_off ≡ 0)
    → Settled n [] w (overwrite 0 [] w)
unfolding overwrite
settle_short n w e l i st = record {
  size = e;
  same_prefix = refl;
  counted = omega arith;
  back = sym (
      ap (last n) (append-nil (ordered w))
      ∙ last_of_le n (ordered w) (omega (arith, length-ordered w)));
  inside = i;
  start = st;
}

-- What `write_suffix` does once the bytes are cut, with `s` for the old suffix.
pub settle_filled :
    (n : ℕ) (s q : List ℕ) (w : PrefixSuffixSaver)
    → w.n ≡ n
    → length s ≤ n
    → length q ≤ n
    → w.suffix ≡ take n (s ++ q)
    → w.suffix_off < n
    → (w.skipped ≡ 0 → w.suffix_off ≡ 0)
    → Settled n (drop n (s ++ q)) w (overwrite (length (drop n (s ++ q))) (drop n (s ++ q)) w)
settle_filled n s q w e ls lq es i st =
    let l = length-append s q in
    let lt = length-take n (s ++ q) in
    let ld = length-drop n (s ++ q) in
    let lw : length w.suffix ≡ min n (length s + length q) = ap length es ∙ omega (arith, lt, l) in
    elim (Bool-cases (leb (length s + length q) n)) [
      | inl short ↦
          let g : length s + length q ≤ n = ground (arith, short) in
          let none_left = is_nil (drop n (s ++ q)) (omega (arith, ld, l)) in
          subst (λ t. Settled n t w (overwrite (length t) t w)) (sym none_left)
            (settle_short n w e (omega (arith, lw)) i st)
      | inr full ↦
          let g : n < length s + length q = ground (arith, full) in
          settle_full n (drop n (s ++ q)) w e (omega (arith, ld, l)) (omega (arith, ld, l))
            (record { full = omega (arith, lw, g, e); inside = omega (arith, i, e) })
    ]
