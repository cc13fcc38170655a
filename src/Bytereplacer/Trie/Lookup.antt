-- ===== src/Bytereplacer/Trie/Lookup.antt =====
-- bytereplacer/bytereplacer.go: lookup is a scan of what the trie holds for each prefix of the bytes.
use go.Common.{
  ==_iff, ℕ, zero, suc, ◌+◌, ◌≡◌, refl, sym, ap, ◌∙◌, arith, Bool, false, List, [], ◌∷◌, ◌==◌, ltb,
  if◌then◌else◌, length, drop, Bool-cases, inl, inr,
}
use go.Bytereplacer.Trie.{
  TrieNode, node, Links, bare, prefixed, table, Slots, end, vacant, taken, width, has_prefix, Best,
  improve, walk, walk_links, walk_slots,
}
use go.Bytereplacer.Trie.Entries.{
  Entry, absent, strip, at, at_links, at_slots, IsBytes, Fits, FitsLinks, FitsSlots,
}

-- The best entry of the prefixes of s, from the shortest on; skip leaves out the empty prefix.
abbrev pub scan : (List ℕ → Entry) → Bool → List ℕ → ℕ → Best → Best
scan f skip [] n best = improve best skip n ((f []).value) ((f []).priority)
scan f skip (x ∷ s) n best =
    scan (λ k. f (x ∷ k)) false s (suc n) (improve best skip n ((f []).value) ((f []).priority))

improve_absent : (best : Best) (skip : Bool) (n : ℕ) (v : List ℕ) → improve best skip n v 0 ≡ best
improve_absent best skip n v =
    let e : ltb (best.best_priority) 0 ≡ false = ground arith in rw e refl

pub scan_ext :
    (f g : List ℕ → Entry)
    → ((k : List ℕ) → IsBytes k → f k ≡ g k)
    → (skip : Bool) (s : List ℕ) → IsBytes s
    → (n : ℕ) (best : Best) → scan f skip s n best ≡ scan g skip s n best
scan_ext f g h skip [] bytes n best = rw (h [] tt) refl
scan_ext f g h skip (x ∷ s) bytes n best =
    scan_ext (λ k. f (x ∷ k)) (λ k. g (x ∷ k)) (λ k b. h (x ∷ k) (bytes.0, b)) false s bytes.1
      (suc n) _
    ∙ rw (h [] tt) refl

scan_ext_all :
    (f g : List ℕ → Entry)
    → ((k : List ℕ) → f k ≡ g k)
    → (skip : Bool) (s : List ℕ) (n : ℕ) (best : Best) → scan f skip s n best ≡ scan g skip s n best
scan_ext_all f g h skip [] n best = rw (h []) refl
scan_ext_all f g h skip (x ∷ s) n best =
    scan_ext_all (λ k. f (x ∷ k)) (λ k. g (x ∷ k)) (λ k. h (x ∷ k)) false s (suc n) _
    ∙ rw (h []) refl

pub scan-absent :
    (skip : Bool) (s : List ℕ) (n : ℕ) (best : Best) → scan (λ k. absent) skip s n best ≡ best
scan-absent skip [] n best = improve_absent best skip n []
scan-absent skip (x ∷ s) n best =
    scan-absent false s (suc n) (improve best skip n [] 0) ∙ improve_absent best skip n []

scan-strip :
    (qs : List ℕ) (f : List ℕ → Entry) (s : List ℕ) (n : ℕ) (best : Best)
    → scan (strip qs f) false s n best
      ≡ (if has_prefix s qs then scan f false (drop (length qs) s) (n + length qs) best else best)
scan-strip [] f [] n best = ap (λ m. scan f false [] m best) {y = n + 0} (omega arith)
scan-strip [] f (x ∷ s) n best = ap (λ m. scan f false (x ∷ s) m best) {y = n + 0} (omega arith)
scan-strip (q ∷ qs) f [] n best = improve_absent best false n []
scan-strip (q ∷ qs) f (x ∷ s) n best =
    let step = scan-strip qs f s (suc n) best in
    let counted : suc n + length qs ≡ n + suc (length qs) = omega arith in
    ap (scan (λ k. strip (q ∷ qs) f (x ∷ k)) false s (suc n)) (improve_absent best false n [])
    ∙ elim (Bool-cases (x == q)) [
      | inl same ↦ rw same (
          step
          ∙ ap (λ m. if has_prefix s qs then scan f false (drop (length qs) s) m best else best)
              counted)
      | inr differ ↦ rw differ (scan-absent false s (suc n) best)
    ]

module _ (mapping : ℕ → ℕ) (table_size : ℕ) where
  at_slots-past : (xs : Slots) (k : List ℕ) → at_slots mapping xs (width xs) k ≡ absent
  unfolding at
  at_slots-past end k = refl
  at_slots-past (vacant xs) k = at_slots-past xs k
  at_slots-past (taken t xs) k = at_slots-past xs k

  -- No entry stands below the index that bytes of no key have.
  scan_past :
      (xs : Slots) (s : List ℕ) (n : ℕ) (best : Best)
      → scan (λ k. absent) false s n best
        ≡ scan (λ k. at_slots mapping xs (width xs) k) false s n best
  scan_past xs s n best = scan_ext_all _ _ (λ k. sym (at_slots-past xs k)) false s n best

  abbrev scan_below : Links → List ℕ → ℕ → Best → Best
  scan_below links [] n best = best
  scan_below links (x ∷ s) n best = scan (λ k. at_links mapping links x k) false s (suc n) best

  mutual
    unfolding walk at Fits

    pub walk-scan :
        (t : TrieNode) (skip : Bool) (s : List ℕ) (n : ℕ) (best : Best)
        → Fits mapping table_size t
        → walk mapping table_size t skip s n best ≡ scan (at mapping t) skip s n best
    walk-scan (node v p links) skip [] n best fits = walk_links-scan links [] n _ fits
    walk-scan (node v p links) skip (x ∷ s) n best fits = walk_links-scan links (x ∷ s) n _ fits

    walk_links-scan :
        (links : Links) (s : List ℕ) (n : ℕ) (best : Best)
        → FitsLinks mapping table_size links
        → walk_links mapping table_size links s n best ≡ scan_below links s n best
    walk_links-scan bare [] n best fits = refl
    walk_links-scan (prefixed q qs next) [] n best fits = refl
    walk_links-scan (table xs) [] n best fits = refl
    walk_links-scan bare (x ∷ s) n best fits = sym (scan-absent false s (suc n) best)
    walk_links-scan (prefixed q qs next) (x ∷ s) n best fits =
        rw (walk-scan next false (drop (length qs) s) (n + suc (length qs)) best fits.1) (
          sym (scan-strip (q ∷ qs) (at mapping next) (x ∷ s) n best)
          ∙ ap (scan (λ k. strip (q ∷ qs) (at mapping next) (x ∷ k)) false s (suc n))
              (improve_absent best false n []))
    walk_links-scan (table xs) (x ∷ s) n best fits = elim (Bool-cases (mapping x == table_size)) [
      | inl unused ↦
          let past : mapping x ≡ width xs =
            omega (arith, fits.0, (==_iff (mapping x) table_size).0 unused) in
          rw (unused, past) (sym (scan-absent false s (suc n) best) ∙ scan_past xs s (suc n) best)
      | inr used ↦ rw used (walk_slots-scan xs (mapping x) s (suc n) best fits.1)
    ]

    walk_slots-scan :
        (xs : Slots) (i : ℕ) (s : List ℕ) (n : ℕ) (best : Best)
        → FitsSlots mapping table_size xs
        → walk_slots mapping table_size xs i s n best
          ≡ scan (λ k. at_slots mapping xs i k) false s n best
    walk_slots-scan end i s n best fits = sym (scan-absent false s n best)
    walk_slots-scan (vacant xs) zero s n best fits = sym (scan-absent false s n best)
    walk_slots-scan (taken t xs) zero s n best fits = walk-scan t false s n best fits.0
    walk_slots-scan (vacant xs) (suc i) s n best fits = walk_slots-scan xs i s n best fits
    walk_slots-scan (taken t xs) (suc i) s n best fits = walk_slots-scan xs i s n best fits.1
