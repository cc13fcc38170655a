-- ===== src/Bytereplacer/Generic/First/Built.antt =====
-- bytereplacer/bytereplacer.go: lookup in the trie that makeGenericReplacer builds finds the first pair.
use go.Common.{
  ℕ, zero, suc, ◌+◌, ◌*◌, ◌≤◌, ◌≡◌, refl, sym, ap, subst, ◌∙◌, arith, Bool, ◌&&◌, List, [], ◌∷◌,
  some, ◌==◌, if◌then◌else◌, All, length, get_or, replicate, Bool-cases, inl, inr, length-replicate,
}
use go.Bytereplacer.Trie.{TrieNode, node, table, empty_slots, add, no_match, lookup}
use go.Bytereplacer.Trie.Entries.{
  entry, absent, at, IsBytes, IsIndexed, Fits, at_slots-empty, FitsSlots-empty, width-empty,
}
use go.Bytereplacer.Trie.Add.{IsKey, add-Added}
use go.Bytereplacer.Trie.Lookup.{scan, walk-scan, scan-absent, scan_ext}
use go.Bytereplacer.Generic.{
  Pair, make_generic_replacer, add_pairs, index_of, mark_keys, total, assign,
}
use go.Bytereplacer.Generic.Index.{
  HasByteKeys, AllMarked, All_weaken, mark_keys-Marks, assign-IsIndexed,
}
use go.Bytereplacer.Generic.First.{
  same, usable, first_match, result, entry_of, entry_of-le, same_refl, put-same, Clean, before,
  Clean-before_absent, Clean-put,
}
use go.Bytereplacer.Generic.First.Scanned.{scan-best, scan-usable, entries_agree}

module _ (mapping : ℕ → ℕ) (table_size : ℕ) where
  -- The trie holds for each key what the first pair with it gave.
  at-add_pairs :
      (pairs : List Pair) (root : TrieNode)
      → Fits mapping table_size root
      → All (λ p. IsKey mapping table_size (p.old)) pairs
      → ((k : List ℕ) → IsBytes k → Clean (at mapping root k))
      → Fits mapping table_size (add_pairs mapping table_size root pairs)
        × ((k : List ℕ)
            → IsBytes k
            → at mapping (add_pairs mapping table_size root pairs) k
              ≡ before (at mapping root k) (entry_of pairs k))
  at-add_pairs [] root fits keys clean = (fits, λ k b. Clean-before_absent _ (clean k b))
  at-add_pairs (p ∷ pairs) root fits keys clean =
      let n = 2 * length pairs + 1 in
      let prio : 2 * suc (length pairs) ≡ suc n = omega arith in
      let added =
        add-Added mapping table_size (length (p.old)) root (p.old) (p.new) (2 * suc (length pairs))
          fits (omega arith) keys.0 in
      let put_at : (k : List ℕ)
          → IsBytes k
          → at mapping
              (add mapping table_size (length (p.old)) root (p.old) (p.new)
                (2 * suc (length pairs)))
              k
            ≡ (if same (p.old) k && ((at mapping root k).priority == 0)
                then entry (p.new) (suc n)
                else at mapping root k) =
        λ k b.
          added.1 k b
          ∙ put-same (at mapping root) (p.old) (entry (p.new) (2 * suc (length pairs))) k
          ∙ ap
              (λ m.
                if same (p.old) k && ((at mapping root k).priority == 0)
                then entry (p.new) m
                else at mapping root k)
              prio in
      let later = at-add_pairs pairs _ added.0 keys.1 (λ k b.
        subst Clean (sym (put_at k b))
          (Clean-put (same (p.old) k) (at mapping root k) (p.new) n absent (clean k b)).0) in
      (
        later.0,
        λ k b.
            later.1 k b
            ∙ ap (λ e. before e (entry_of pairs k)) (put_at k b)
            ∙ (Clean-put (same (p.old) k) (at mapping root k) (p.new) n (entry_of pairs k)
                (clean k b)).1
            ∙ ap
                (λ m.
                  before (at mapping root k)
                    (if same (p.old) k then entry (p.new) m else entry_of pairs k))
                (sym prio),
      )

scan-first_match :
    (pairs : List Pair) (s : List ℕ) (skip : Bool)
    → result (scan (entry_of pairs) skip s 0 no_match) ≡ first_match pairs s skip
unfolding first_match
scan-first_match [] s skip = ap result (scan-absent skip s 0 no_match)
scan-first_match (p ∷ pairs) s skip = elim (Bool-cases (usable s skip (p.old))) [
  | inl can ↦ rw can (
      scan-best (p.old) (entry_of (p ∷ pairs)) skip s 0 no_match
        (entry (p.new) (2 * suc (length pairs))) can (rw (same_refl (p.old)) refl) (omega arith)
        (λ k differ. rw differ (omega (arith, entry_of-le pairs k)))
      ∙ ap (λ m. some (p.new, m)) {y = length (p.old)} (omega arith))
  | inr cannot ↦ rw cannot (
      ap result (
        scan-usable (entry_of (p ∷ pairs)) (entry_of pairs) skip s 0 no_match
          (λ k u. rw (entries_agree (p.old) s k skip cannot u) refl))
      ∙ scan-first_match pairs s skip)
]

-- What makeGenericReplacer builds, and that it fits.
abbrev pub index : List Pair → ℕ → ℕ
index pairs b =
    index_of
      (assign (mark_keys (replicate 256 0) pairs) (total (mark_keys (replicate 256 0) pairs)) 0) b

abbrev pub size : List Pair → ℕ
size pairs = total (mark_keys (replicate 256 0) pairs)

IsMark-zeros : (n : ℕ) → All (λ b. b ≤ 1) (replicate n 0)
IsMark-zeros zero = tt
IsMark-zeros (suc n) = (omega arith, IsMark-zeros n)

keys-IsKey :
    (m : List ℕ) (mapping : ℕ → ℕ) (n : ℕ)
    → ((y : ℕ) → get_or m y 0 ≡ 1 → IsIndexed mapping n y)
    → (pairs : List Pair) → HasByteKeys pairs
    → AllMarked m pairs
    → All (λ p. IsKey mapping n (p.old)) pairs
keys-IsKey m mapping n h [] bytes marked = tt
keys-IsKey m mapping n h (p ∷ pairs) bytes marked =
    ((All_weaken _ _ h (p.old) marked.0, bytes.0), keys-IsKey m mapping n h pairs bytes.1 marked.1)

at-new :
    (mapping : ℕ → ℕ) (n : ℕ) (k : List ℕ)
    → at mapping (node [] 0 (table (empty_slots n))) k ≡ absent
unfolding at
at-new mapping n [] = refl
at-new mapping n (x ∷ k) = at_slots-empty mapping n (mapping x) k

make_generic_replacer-Fits :
    (pairs : List Pair)
    → HasByteKeys pairs
    → Fits (index pairs) (size pairs) ((make_generic_replacer pairs).root)
      × ((k : List ℕ)
          → IsBytes k
          → at (index pairs) ((make_generic_replacer pairs).root) k ≡ entry_of pairs k)
unfolding make_generic_replacer Fits at
make_generic_replacer-Fits pairs bytes =
    let n = size pairs in
    let root = node [] 0 (table (empty_slots n)) in
    let marks =
      mark_keys-Marks pairs (replicate 256 0) bytes (length-replicate {A = ℕ} 256 0)
        (IsMark-zeros 256) in
    let keys =
      keys-IsKey (mark_keys (replicate 256 0) pairs) (index pairs) n
        (assign-IsIndexed _ marks.0 marks.1) pairs bytes marks.2 in
    let no_entry : (k : List ℕ) → at (index pairs) root k ≡ absent = at-new (index pairs) n in
    let built =
      at-add_pairs (index pairs) n pairs root (width-empty n, FitsSlots-empty (index pairs) n n)
        keys (λ k b. inl (no_entry k)) in
    (built.0, λ k b. built.1 k b ∙ ap (λ e. before e (entry_of pairs k)) (no_entry k))

-- lookup on the trie of the pairs finds the first pair whose old string the bytes begin with,
-- with its new string and the length of the old one; with ignoreRoot it passes over empty old
-- strings. The old strings and the bytes searched consist of bytes below 256.
pub lookup-first_match :
    (pairs : List Pair)
    → HasByteKeys pairs
    → (s : List ℕ) → IsBytes s
    → (ignore_root : Bool)
    → result (lookup (index pairs) (size pairs) ((make_generic_replacer pairs).root) s ignore_root)
      ≡ first_match pairs s ignore_root
unfolding lookup
lookup-first_match pairs bytes s is_bytes ignore_root =
    let built = make_generic_replacer-Fits pairs bytes in
    ap result (
      walk-scan (index pairs) (size pairs) _ ignore_root s 0 no_match built.0
      ∙ scan_ext _ _ built.1 ignore_root s is_bytes 0 no_match)
    ∙ scan-first_match pairs s ignore_root
