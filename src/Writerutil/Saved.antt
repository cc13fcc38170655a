-- ===== src/Writerutil/Saved.antt =====
-- What a `PrefixSuffixSaver` of writerutil/writerutil.go holds, by all that has been written.
use go.Common.{
  ℕ, ◌+◌, ◌-◌, ◌≤◌, ◌<◌, ◌≡◌, sym, ap, ◌∙◌, arith, List, [], ◌++◌, append_assoc, append-nil, ◌==◌,
  leb, length, take, drop, length-append, length-take, length-drop, drop_of_le, drop-append_le,
  drop-append_ge, drop-drop, take-length_append, drop-length_append, Bool-cases, inl, inr,
}
use go.Writerutil.{PrefixSuffixSaver, overwrite_round, copied}

-- The last `n` elements.
abbrev pub last : ℕ → List ℕ → List ℕ
last n xs = drop (length xs - n) xs

-- The bytes of the suffix, oldest first.
abbrev pub ordered : PrefixSuffixSaver → List ℕ
ordered w = drop w.suffix_off w.suffix ++ take w.suffix_off w.suffix

drop-cut :
    (k m : ℕ) (xs ys : List ℕ) → m ≤ length xs → drop k (drop m xs ++ ys) ≡ drop (m + k) (xs ++ ys)
drop-cut k m xs ys h = ap (drop k) (sym (drop-append_le m xs ys h)) ∙ drop-drop k m (xs ++ ys)

pub last-last : (n : ℕ) (xs ys : List ℕ) → last n (last n xs ++ ys) ≡ last n (xs ++ ys)
last-last n xs ys =
    let m = length xs - n in
    drop-cut (length (drop m xs ++ ys) - n) m xs ys (omega arith)
    ∙ ap (λ k. drop k (xs ++ ys))
        (omega (arith, length-append (drop m xs) ys, length-drop m xs, length-append xs ys))

pub last-append_last : (n : ℕ) (xs ys : List ℕ) → last n (xs ++ last n ys) ≡ last n (xs ++ ys)
last-append_last n xs ys =
    let m = length ys - n in
    let l1 = length-append xs (drop m ys) in
    let l2 = length-drop m ys in
    let l3 = length-append xs ys in
    elim (Bool-cases (leb (length ys) n)) [
      | inl short ↦ let z : m ≡ 0 = ground (arith, short) in ap (λ k. last n (xs ++ drop k ys)) z
      | inr long ↦
          let g : n < length ys = ground (arith, long) in
          drop-append_ge (length (xs ++ drop m ys) - n) xs (drop m ys) (omega (arith, l1, l2))
          ∙ drop-drop (length (xs ++ drop m ys) - n - length xs) m ys
          ∙ ap (λ k. drop k ys) (omega (arith, l1, l2, l3))
          ∙ sym (drop-append_ge (length (xs ++ ys) - n) xs ys (omega (arith, l3)))
    ]

-- A ring of `n` bytes that is full.
pub record IsFull (w : PrefixSuffixSaver) : Type 0 where
  pub full : length w.suffix ≡ w.n
  pub inside : w.suffix_off < w.n

pub overwrite_round-IsFull :
    (p : List ℕ) (w : PrefixSuffixSaver) → IsFull w → IsFull (overwrite_round p w)
unfolding overwrite_round
overwrite_round-IsFull p w h = record {
  full = omega (
    arith,
    length-append (take off s) (take k p ++ drop (off + k) s),
    length-append (take k p) (drop (off + k) s),
    length-take off s,
    length-take k p,
    length-drop (off + k) s,
    h.full,
    h.inside,
  );
  inside = ground (arith, h.full, h.inside);
}
  where
    s : List ℕ
    s = w.suffix

    off : ℕ
    off = w.suffix_off

    k : ℕ
    k = copied p w

-- A list of three parts, cut behind the second.
cut_three :
    (n : ℕ) (as' bs cs : List ℕ)
    → length as' + length bs ≡ n
    → (drop n (as' ++ (bs ++ cs)) ≡ cs) × (take n (as' ++ (bs ++ cs)) ≡ as' ++ bs)
cut_three n as' bs cs h =
    let e : n ≡ length (as' ++ bs) = omega (arith, h, length-append as' bs) in
    let assoc = append_assoc as' bs cs in
    (
      rw (e, ← assoc) (drop-length_append (as' ++ bs) cs),
      rw (e, ← assoc) (take-length_append (as' ++ bs) cs),
    )

pub ordered-overwrite_round :
    (p : List ℕ) (w : PrefixSuffixSaver)
    → IsFull w
    → ordered (overwrite_round p w) ≡ drop (copied p w) (ordered w) ++ take (copied p w) p
unfolding overwrite_round
ordered-overwrite_round p w h = elim (Bool-cases (off + k == w.n)) [
  | inl wraps ↦
      let none_left : cs ≡ [] = drop_of_le (off + k) s (ground (arith, wraps, h.full)) in
      rw (wraps, right, append-nil (as' ++ (bs ++ cs)), none_left, append-nil bs)
  | inr stays ↦ rw (stays, three.0, three.1, right) (sym (append_assoc cs as' bs))
]
  where
    s : List ℕ
    s = w.suffix

    off : ℕ
    off = w.suffix_off

    k : ℕ
    k = copied p w

    as' : List ℕ
    as' = take off s

    bs : List ℕ
    bs = take k p

    cs : List ℕ
    cs = drop (off + k) s

    three :
        (drop (off + k) (as' ++ (bs ++ cs)) ≡ cs) × (take (off + k) (as' ++ (bs ++ cs)) ≡ as' ++ bs)
    three =
        cut_three (off + k) as' bs cs
          (omega (arith, length-take off s, length-take k p, h.full, h.inside))

    right : drop k (ordered w) ≡ cs ++ as'
    right =
        drop-append_le k (drop off s) (take off s) (omega (arith, length-drop off s))
        ∙ ap (λ t. t ++ as') (drop-drop k off s)
