-- ===== src/Syncutil/Threads.antt =====
-- Threads as the list of their program counters, for the systems of syncutil.
use go.Common.{
  ℕ, zero, suc, refl, dec_lt, map, replicate, ◌+◌, ◌≤◌, ◌≡◌, ap, arith, List, [], ◌∷◌, ◌++◌,
}

module _ {P : Type 0} where
  -- What all threads have together.
  unfoldable pub total : (P → ℕ) → List P → ℕ
  total f [] = 0
  total f (p ∷ ps) = f p + total f ps

  -- The thread that makes a step, with the threads before and behind it.
  pub record At (ps : List P) (p : P) : Type 0 where
    pub before : List P
    pub behind : List P
    pub split : ps ≡ before ++ (p ∷ behind)

  -- All threads, where that one has another program counter.
  abbrev pub moved : {ps : List P} {p : P} → At ps p → P → List P
  moved i q = i.before ++ (q ∷ i.behind)

  total-append : (f : P → ℕ) (ps qs : List P) → total f (ps ++ qs) ≡ total f ps + total f qs
  unfolding total
  total-append f [] qs = omega arith
  total-append f (p ∷ ps) qs = omega (arith, total-append f ps qs)

  -- A step changes the total by what the thread itself has.
  pub total-moved :
      (f : P → ℕ) {ps : List P} {p : P} (i : At ps p) (q : P)
      → total f (moved i q) + f p ≡ total f ps + f q
  unfolding total
  total-moved f {ps} {p} i q = omega (
    arith,
    ap (total f) i.split,
    total-append f i.before (q ∷ i.behind),
    total-append f i.before (p ∷ i.behind),
  )

  pub total-at : (f : P → ℕ) {ps : List P} {p : P} (i : At ps p) → f p ≤ total f ps
  unfolding total
  total-at f {ps} {p} i =
      omega (arith, ap (total f) i.split, total-append f i.before (p ∷ i.behind))

  -- The next thread is one of those behind the first.
  pub there : {ps : List P} {p : P} (q : P) → At ps p → At (q ∷ ps) p
  there q i = record { before = q ∷ i.before; behind = i.behind; split = ap (λ t. q ∷ t) i.split }

  -- Something that some thread has.
  pub some_thread : (f : P → ℕ) (ps : List P) → 1 ≤ total f ps → (p : P) × At ps p × (1 ≤ f p)
  unfolding total
  some_thread f [] h = absurd (omega arith)
  some_thread f (p ∷ ps) h = elim (dec_lt 0 (f p)) [
    | yes has ↦ (p, record { before = []; behind = ps; split = refl }, omega (arith, has))
    | no not_it ↦ let (q, i, has) = some_thread f ps (omega (arith, not_it)) in (q, there p i, has)
  ]

  -- Totals that are thread by thread no more, and those after a change of all threads.
  pub total_mono : (f g : P → ℕ) → ((p : P) → f p ≤ g p) → (ps : List P) → total f ps ≤ total g ps
  unfolding total
  total_mono f g le [] = omega arith
  total_mono f g le (p ∷ ps) = omega (arith, le p, total_mono f g le ps)

  pub total-map :
      (f g : P → ℕ) (h : P → P)
      → ((p : P) → f (h p) ≡ g p)
      → (ps : List P) → total f (map h ps) ≡ total g ps
  unfolding total
  total-map f g h same [] = refl
  total-map f g h same (p ∷ ps) = omega (arith, same p, total-map f g h same ps)

  pub total-zero : (f : P → ℕ) → ((p : P) → f p ≡ 0) → (ps : List P) → total f ps ≡ 0
  unfolding total
  total-zero f z [] = refl
  total-zero f z (p ∷ ps) = omega (arith, z p, total-zero f z ps)

  pub total-replicate : (f : P → ℕ) (p : P) (k : ℕ) → f p ≡ 0 → total f (replicate k p) ≡ 0
  unfolding total
  total-replicate f p zero z = refl
  total-replicate f p (suc k) z = omega (arith, z, total-replicate f p k z)
