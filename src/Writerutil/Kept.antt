-- ===== src/Writerutil/Kept.antt =====
-- `PrefixSuffixSaver` of writerutil/writerutil.go from its promise: what `Write` keeps and `Bytes` gives.
use go.Common.{
  ℕ, ◌+◌, ◌-◌, ◌≤◌, ◌<◌, ◌≡◌, refl, sym, ap, ap₂, ◌∙◌, subst, arith, true, false, List, [], ◌∷◌,
  ◌++◌, append_assoc, append-nil, ◌==◌, leb, if◌then◌else◌, length, take, drop, min, length-append,
  length-take, length-drop, take-append-drop, take_of_le, drop_of_le, take-append_le,
  drop-append_le, drop-drop, take-length_append, drop-length_append, Bool-cases, inl, inr,
}
use go.Writerutil.{PrefixSuffixSaver, new, fill, overwrite, write_suffix, write, write_all, bytes}
use go.Writerutil.Saved.{last, ordered, last-last, last-append_last}
use go.Writerutil.Written.{fill_lem, length-ordered, Keeps, settle_filled, length-last, last_of_le}

-- The suffix alone, by what follows the prefix.
record Trails (n : ℕ) (r : List ℕ) (w : PrefixSuffixSaver) : Type 0 where
  size : w.n ≡ n
  back : ordered w ≡ last n r
  counted : w.skipped ≡ length r - n
  inside : w.suffix_off < n
  start : w.skipped ≡ 0 → w.suffix_off ≡ 0

-- The saver after `fill` of the suffix.
abbrev filled : ℕ → List ℕ → PrefixSuffixSaver → PrefixSuffixSaver
filled n p w = record w {
  suffix = take n (w.suffix ++ last n p);
  skipped = w.skipped + (length p - n);
}

ordered-filled :
    (n : ℕ) (p : List ℕ) (w : PrefixSuffixSaver)
    → length w.suffix ≤ n
    → (length w.suffix < n → w.suffix_off ≡ 0)
    → ordered (filled n p w) ++ drop n (w.suffix ++ last n p) ≡ ordered w ++ last n p
ordered-filled n p w l st =
    let s = w.suffix in
    let q = last n p in
    elim (Bool-cases (leb n (length s))) [
      | inl full ↦
          let g : n ≡ length s = ground (arith, full) in
          let t : take n (s ++ q) ≡ s = ap (λ k. take k (s ++ q)) g ∙ take-length_append s q in
          let d : drop n (s ++ q) ≡ q = ap (λ k. drop k (s ++ q)) g ∙ drop-length_append s q in
          ap₂ (λ x y. (drop w.suffix_off x ++ take w.suffix_off x) ++ y) t d
      | inr short ↦
          let z = st (ground (arith, short)) in
          rw (z, append-nil (take n (s ++ q)), append-nil s) (take-append-drop n (s ++ q))
    ]

-- The rest of `write_suffix`, for what `fill` gives.
abbrev ring : List ℕ → PrefixSuffixSaver → ℕ → List ℕ × List ℕ → PrefixSuffixSaver
ring p w k f =
    overwrite (length f.1) f.1 (record w { suffix = f.0; skipped = w.skipped + (length p - k) })

write_suffix-eq :
    (n : ℕ) (p : List ℕ) (w : PrefixSuffixSaver)
    → w.n ≡ n
    → length w.suffix ≤ n
    → write_suffix p w
      ≡ overwrite
          (length (drop n (w.suffix ++ last n p)))
          (drop n (w.suffix ++ last n p))
          (filled n p w)
unfolding write_suffix
write_suffix-eq n p w e l =
    ap (λ k. ring p w k (fill k w.suffix (last k p))) e
    ∙ ap (ring p w n) (fill_lem n w.suffix (last n p) l)

write_suffix-Trails :
    (n : ℕ) (r p : List ℕ) (w : PrefixSuffixSaver)
    → Trails n r w
    → Trails n (r ++ p) (write_suffix p w) × ((write_suffix p w).prefix ≡ w.prefix)
write_suffix-Trails n r p w t =
    let ls : length w.suffix ≡ min n (length r) =
      sym (length-ordered w) ∙ ap length t.back ∙ length-last n r in
    let q = drop n (w.suffix ++ last n p) in
    let lq : length q ≡ length w.suffix + length (last n p) - n =
      omega (arith, length-drop n (w.suffix ++ last n p), length-append w.suffix (last n p)) in
    let done =
      settle_filled n w.suffix (last n p) (filled n p w) t.size (omega (arith, ls))
        (omega (arith, length-last n p)) refl t.inside (λ z. t.start (omega (arith, z))) in
    let same = write_suffix-eq n p w t.size (omega (arith, ls)) in
    subst (λ v. Trails n (r ++ p) v × (v.prefix ≡ w.prefix)) (sym same)
      (
        record {
          size = done.size;
          back =
              done.back
              ∙ ap (last n) (
                  ordered-filled n p w (omega (arith, ls))
                    (λ z. t.start (omega (arith, z, ls, t.counted))))
              ∙ ap (λ x. last n (x ++ last n p)) t.back
              ∙ last-append_last n (last n r) p
              ∙ last-last n r p;
          counted =
              omega (arith, done.counted, t.counted, ls, lq, length-last n p, length-append r p);
          inside = done.inside;
          start = done.start;
        },
        done.same_prefix,
      )

cut_again :
    (n : ℕ) (xs p : List ℕ)
    → (take n (take n xs ++ p) ≡ take n (xs ++ p))
      × (drop n xs ++ drop n (take n xs ++ p) ≡ drop n (xs ++ p))
cut_again n xs p = elim (Bool-cases (leb (length xs) n)) [
  | inl short ↦
      let g : length xs ≤ n = ground (arith, short) in
      rw (take_of_le n xs g, drop_of_le n xs g) (refl, refl)
  | inr long ↦
      let g : n ≤ length xs = ground (arith, long) in
      let l : length (take n xs) ≡ n = omega (arith, length-take n xs) in
      (
        take-append_le n (take n xs) p (omega (arith, l))
            ∙ take_of_le n (take n xs) (omega (arith, l))
            ∙ sym (take-append_le n xs p g),
        ap (λ t. drop n xs ++ t)
              (ap (λ k. drop k (take n xs ++ p)) (sym l) ∙ drop-length_append (take n xs) p)
            ∙ sym (drop-append_le n xs p g),
      )
]

-- The whole of `Write`, for what the first `fill` gives.
abbrev wrote : PrefixSuffixSaver → List ℕ × List ℕ → PrefixSuffixSaver
wrote w f = write_suffix f.1 (record w { prefix = f.0 })

-- `Write` keeps the promise: after `xs` and then `p`, the saver holds the first `n` bytes of both
-- together and the last `n` of what follows those, and counts the bytes between.
pub write-Keeps :
    (n : ℕ) (xs p : List ℕ) (w : PrefixSuffixSaver) → Keeps n xs w → Keeps n (xs ++ p) (write p w).1
unfolding write
write-Keeps n xs p w k =
    let pre = take n (take n xs ++ p) in
    let q = drop n (take n xs ++ p) in
    let cut = cut_again n xs p in
    let first : fill w.n w.prefix p ≡ (pre, q) =
      ap₂ (λ a b. fill a b p) k.size k.front
      ∙ fill_lem n (take n xs) p (omega (arith, length-take n xs)) in
    let (t, same) =
      write_suffix-Trails n (drop n xs) q (record w { prefix = pre })
        (record {
          size = k.size;
          back = k.back;
          counted = k.counted;
          inside = k.inside;
          start = k.start;
        }) in
    subst (λ f. Keeps n (xs ++ p) (wrote w f)) (sym first)
      (record {
        size = t.size;
        front = same ∙ cut.0;
        back = t.back ∙ ap (last n) cut.1;
        counted = t.counted ∙ ap (λ x. length x - n) cut.1;
        inside = t.inside;
        start = t.start;
      })

pub new-Keeps : (n : ℕ) → 0 < n → Keeps n [] (new n)
new-Keeps n h = record {
  size = refl;
  front = sym (take_of_le n [] (omega arith));
  back = sym (ap (last n) (drop_of_le n [] (omega arith)) ∙ drop_of_le (0 - n) [] (omega arith));
  counted = omega (arith, length-drop {A = ℕ} n []);
  inside = h;
  start = λ _. refl;
}

-- What `Bytes` gives for a saver that keeps `xs`.
pub bytes_lem :
    (format_int : ℕ → List ℕ) (omitting after : List ℕ) (n : ℕ) (xs : List ℕ)
    (w : PrefixSuffixSaver)
    → Keeps n xs w
    → bytes format_int omitting after w ≡ (
        if leb (length xs) (n + n)
        then xs
        else take n xs ++ (omitting ++ (format_int (length xs - (n + n)) ++ (after ++ last n xs))))
unfolding bytes
bytes_lem format_int omitting after n xs w k = elim (Bool-cases (leb (length xs) n)) [
  | inl short ↦
      let g : length xs ≤ n = ground (arith, short) in
      let none_after : (length w.suffix == 0) ≡ true = ground (arith, ls, g) in
      let fits : leb (length xs) (n + n) ≡ true = ground (arith, g) in
      rw (none_after, fits) (k.front ∙ take_of_le n xs g)
  | inr long ↦
      let g : n < length xs = ground (arith, long) in
      let some_after : (length w.suffix == 0) ≡ false = ground (arith, ls, g, k.inside) in
      elim (Bool-cases (leb (length xs) (n + n))) [
        | inl fits ↦
            let b : length xs ≤ n + n = ground (arith, fits) in
            let z : w.skipped ≡ 0 = omega (arith, k.counted, ld, b) in
            rw (some_after, fits, z)
              (ap₂ (λ x y. x ++ y) k.front
                  (in_order z ∙ k.back ∙ last_of_le n (drop n xs) (omega (arith, ld)))
                ∙ take-append-drop n xs)
        | inr large ↦
            let b : n + n < length xs = ground (arith, large) in
            let left_out : w.skipped ≡ length xs - (n + n) = omega (arith, k.counted, ld) in
            let some_left_out : (w.skipped == 0) ≡ false = ground (arith, left_out, b) in
            rw (some_after, large, some_left_out, left_out, k.front, k.back, last-drop b) refl
      ]
]
  where
    ld : length (drop n xs) ≡ length xs - n
    ld = length-drop n xs

    ls : length w.suffix ≡ min n (length xs - n)
    ls = sym (length-ordered w) ∙ ap length k.back ∙ length-last n (drop n xs) ∙ ap (min n) ld

    in_order : w.skipped ≡ 0 → w.suffix ≡ ordered w
    in_order z = rw (k.start z) (sym (append-nil w.suffix))

    last-drop : n + n < length xs → last n (drop n xs) ≡ last n xs
    last-drop b = drop-drop (length (drop n xs) - n) n xs ∙ ap (λ i. drop i xs) (omega (arith, ld))

abbrev pub concat : List (List ℕ) → List ℕ
concat [] = []
concat (p ∷ ps) = p ++ concat ps

write_all-Keeps :
    (n : ℕ) (xs : List ℕ) (ps : List (List ℕ)) (w : PrefixSuffixSaver)
    → Keeps n xs w
    → Keeps n (xs ++ concat ps) (write_all ps w)
unfolding write_all
write_all-Keeps n xs [] w k = subst (λ t. Keeps n t w) (sym (append-nil xs)) k
write_all-Keeps n xs (p ∷ ps) w k =
    subst (λ t. Keeps n t (write_all (p ∷ ps) w)) (append_assoc xs p (concat ps))
      (write_all-Keeps n (xs ++ p) ps (write p w).1 (write-Keeps n xs p w k))

-- A saver that keeps `n` bytes at each end, `n` not 0, gives back all that was written to it in any
-- number of writes, if that is at most `2 * n` bytes; with more, it gives the first `n` bytes, a text
-- with the number of those left out, and the last `n`.
pub bytes-write_all :
    (format_int : ℕ → List ℕ) (omitting after : List ℕ) (n : ℕ) (ps : List (List ℕ))
    → 0 < n
    → bytes format_int omitting after (write_all ps (new n)) ≡ (
        if leb (length (concat ps)) (n + n)
        then concat ps
        else take n (concat ps)
          ++ (omitting
              ++ (format_int (length (concat ps) - (n + n)) ++ (after ++ last n (concat ps)))))
bytes-write_all format_int omitting after n ps h =
    bytes_lem format_int omitting after n (concat ps) (write_all ps (new n))
      (write_all-Keeps n [] ps (new n) (new-Keeps n h))
