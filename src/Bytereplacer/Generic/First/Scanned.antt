-- ===== src/Bytereplacer/Generic/First/Scanned.antt =====
-- bytereplacer/bytereplacer.go: of the entries that lookup passes, the one of the highest priority is found.
use go.Common.{
  ℕ, suc, ◌+◌, ◌≤◌, ◌<◌, ◌≡◌, ◌≢◌, refl, ap, subst, ◌∙◌, arith, Bool, true, false, not, ◌&&◌, List,
  [], ◌∷◌, some, ◌==◌, ltb, length, Bool-cases, inl, inr,
}
use go.Bytereplacer.Trie.{Best, improve}
use go.Bytereplacer.Trie.Entries.{Entry}
use go.Bytereplacer.Trie.Lookup.{scan}
use go.Bytereplacer.Generic.First.{same→eq, same, usable, result}

-- Entries of no higher priority change nothing.
pub scan_lower :
    (f : List ℕ → Entry) (skip : Bool) (s : List ℕ) (n : ℕ) (best : Best)
    → ((k : List ℕ) → (f k).priority ≤ best.best_priority)
    → scan f skip s n best ≡ best
scan_lower f skip [] n best low =
    let e : ltb (best.best_priority) ((f []).priority) ≡ false = ground (arith, low []) in rw e refl
scan_lower f skip (x ∷ s) n best low =
    let e : ltb (best.best_priority) ((f []).priority) ≡ false = ground (arith, low []) in
    rw e (scan_lower (λ k. f (x ∷ k)) false s (suc n) best (λ k. low (x ∷ k)))

improve-lower :
    (best : Best) (skip : Bool) (n : ℕ) (v : List ℕ) (p top : ℕ)
    → best.best_priority < top
    → p < top
    → (improve best skip n v p).best_priority < top
improve-lower best skip n v p top h g = elim (Bool-cases (ltb (best.best_priority) p && not skip)) [
  | inl y ↦ rw y g
  | inr worse ↦ rw worse h
]

usable-tail :
    (x q : ℕ) (s qs : List ℕ) (skip : Bool)
    → (x == q) ≡ true
    → usable (x ∷ s) skip (q ∷ qs) ≡ true
    → usable s false qs ≡ true
usable-tail x q s qs true e can = ground (arith, e, can)
usable-tail x q s qs false e can = ground (arith, e, can)

usable-no :
    (x q : ℕ) (s qs : List ℕ) (skip : Bool) → (x == q) ≡ false → usable (x ∷ s) skip (q ∷ qs) ≢ true
usable-no x q s qs skip e can = ground (arith, e, can)

usable_cons :
    (x : ℕ) (s k : List ℕ) (skip : Bool)
    → usable s false k ≡ true
    → usable (x ∷ s) skip (x ∷ k) ≡ true
usable_cons x s k true can = let e : (x == x) ≡ true = ground arith in ground (arith, e, can)
usable_cons x s k false can = let e : (x == x) ≡ true = ground arith in ground (arith, e, can)

and_false : (b : Bool) → (b && false) ≡ false
and_false true = refl
and_false false = refl

-- The entry of the highest priority among the prefixes is found.
pub scan-best :
    (o : List ℕ) (f : List ℕ → Entry) (skip : Bool) (s : List ℕ) (n : ℕ) (best : Best) (top : Entry)
    → usable s skip o ≡ true
    → f o ≡ top
    → best.best_priority < top.priority
    → ((k : List ℕ) → same o k ≡ false → (f k).priority < top.priority)
    → result (scan f skip s n best) ≡ some (top.value, n + length o)
scan-best [] f true s n best top can at_o low others = absurd (ground (arith, can))
scan-best [] f false [] n best top can at_o low others =
    let e : ltb (best.best_priority) (top.priority) ≡ true = ground (arith, low) in
    rw (at_o, e) (ap (λ m. some (top.value, m)) {y = n + 0} (omega arith))
scan-best [] f false (x ∷ s) n best top can at_o low others =
    let e : ltb (best.best_priority) (top.priority) ≡ true = ground (arith, low) in
    let found = improve best false n ((f []).value) ((f []).priority) in
    let at_top : found.best_priority ≡ top.priority = rw (at_o, e) refl in
    ap result (
      scan_lower (λ k. f (x ∷ k)) false s (suc n) found
        (λ k. let lt = others (x ∷ k) refl in omega (arith, lt, at_top)))
    ∙ rw (at_o, e) (ap (λ m. some (top.value, m)) {y = n + 0} (omega arith))
scan-best (q ∷ qs) f skip [] n best top can at_o low others = absurd (ground (arith, can))
scan-best (q ∷ qs) f skip (x ∷ s) n best top can at_o low others = elim (Bool-cases (x == q)) [
  | inl e ↦
      let head : x ≡ q = ground (arith, e) in
      let can' : usable s false qs ≡ true = usable-tail x q s qs skip e can in
      let self : (x == q) ≡ true = e in
      let self' : (q == x) ≡ true = ground (arith, e) in
      scan-best qs (λ k. f (x ∷ k)) false s (suc n)
        (improve best skip n ((f []).value) ((f []).priority)) top can'
        (ap (λ y. f (y ∷ qs)) head ∙ at_o)
        (improve-lower best skip n ((f []).value) ((f []).priority) (top.priority) low
          (others [] refl))
        (λ k differ. others (x ∷ k) (rw self' differ))
      ∙ ap (λ m. some (top.value, m)) (omega arith)
  | inr n ↦ absurd (usable-no x q s qs skip n can)
]

-- Prefixes that cannot be used do not count.
pub scan-usable :
    (f g : List ℕ → Entry) (skip : Bool) (s : List ℕ) (n : ℕ) (best : Best)
    → ((k : List ℕ) → usable s skip k ≡ true → f k ≡ g k)
    → scan f skip s n best ≡ scan g skip s n best
scan-usable f g true [] n best agree =
    rw
      (
        and_false (ltb (best.best_priority) ((f []).priority)),
        and_false (ltb (best.best_priority) ((g []).priority)),
      )
      refl
scan-usable f g false [] n best agree = rw (agree [] refl) refl
scan-usable f g skip (x ∷ s) n best agree =
    scan-usable (λ k. f (x ∷ k)) (λ k. g (x ∷ k)) false s (suc n) _
      (λ k u. agree (x ∷ k) (usable_cons x s k skip u))
    ∙ ap (scan (λ k. g (x ∷ k)) false s (suc n)) (first_step skip (agree []))
  where
    first_step :
        (skip : Bool)
        → (usable (x ∷ s) skip [] ≡ true → f [] ≡ g [])
        → improve best skip n ((f []).value) ((f []).priority)
          ≡ improve best skip n ((g []).value) ((g []).priority)
    first_step true h =
        rw
          (
            and_false (ltb (best.best_priority) ((f []).priority)),
            and_false (ltb (best.best_priority) ((g []).priority)),
          )
          refl
    first_step false h = rw (h refl) refl

pub entries_agree :
    (o s k : List ℕ) (skip : Bool)
    → usable s skip o ≡ false
    → usable s skip k ≡ true
    → same o k ≡ false
entries_agree o s k skip cannot can = elim (Bool-cases (same o k)) [
  | inl e ↦
      let eq = same→eq o k e in
      let cannot' : usable s skip k ≡ false = subst (λ l. usable s skip l ≡ false) eq cannot in
      absurd (ground (arith, can, cannot'))
  | inr differ ↦ differ
]
