-- ===== src/Bytereplacer/Trie/Add.antt =====
-- bytereplacer/bytereplacer.go: add puts one entry into a trie and keeps the others.
use go.Common.{
  ℕ, zero, suc, ◌≤◌, ◌≡◌, refl, sym, ap, ap₂, subst, ◌∙◌, arith, false, List, [], ◌∷◌, ◌++◌, ◌==◌,
  if◌then◌else◌, All, length, take, drop, Bool-cases, inl, inr, append-nil, length-drop,
  take-append-drop, All-drop, All-take,
}
use go.Bytereplacer.Trie.{
  TrieNode, node, bare, prefixed, table, Slots, empty_node, empty_slots, width, get_slot, set_slot,
  slot_or_new, common, prefix_node, prefix_links, set_value, split_table, add,
}
use go.Bytereplacer.Trie.Entries.{
  Entry, entry, absent, strip, put, at, at_slots, IsByte, IsBytes, IsIndexed, Fits, FitsLinks,
  put_ext, strip_ext, strip-append, strip-put, at_slots-get, at_slots-set_same, at_slots-set_other,
  at_slots-empty, at-empty, at-set_value, at-prefix_node, Fits-slot, FitsSlots-set, FitsSlots-empty,
  Fits-prefix_node, FitsLinks-prefix, Fits-set_value, width-set, width-empty, take-common,
}

strip-absent : (qs k : List ℕ) → strip qs (λ j. absent) k ≡ absent
strip-absent [] k = refl
strip-absent (q ∷ qs) [] = refl
strip-absent (q ∷ qs) (x ∷ k) = rw (strip-absent qs k) (ground arith)

module _ (mapping : ℕ → ℕ) (table_size : ℕ) where
  at-leaf :
      (v : List ℕ) (p y : ℕ) (ys w : List ℕ) (r : ℕ) (k : List ℕ)
      → at mapping (node v p (prefixed y ys (set_value empty_node w r))) k
        ≡ put (at mapping (node v p bare)) (y ∷ ys) (entry w r) k
  unfolding at
  at-leaf v p y ys w r [] = refl
  at-leaf v p y ys w r (x ∷ k) =
      strip_ext (y ∷ ys) _ _ (at-set_value mapping empty_node w r) (x ∷ k)
      ∙ strip_ext (y ∷ ys) _ _ (put_ext _ _ (at-empty mapping) [] (entry w r)) (x ∷ k)
      ∙ strip-put (y ∷ ys) (λ j. absent) [] (entry w r) (x ∷ k)
      ∙ put_ext _ _ (strip-absent (y ∷ ys)) (y ∷ ys ++ []) (entry w r) (x ∷ k)
      ∙ ap (λ key. put (λ j. absent) key (entry w r) (x ∷ k)) (append-nil (y ∷ ys))

  at-table :
      (xs : Slots) (y : ℕ) (ys : List ℕ) (e : Entry) (t : TrieNode)
      → width xs ≡ table_size
      → IsIndexed mapping table_size y
      → ((k : List ℕ)
          → IsBytes k
          → at mapping t k ≡ put (λ j. at_slots mapping xs (mapping y) j) ys e k)
      → (x : ℕ) (k : List ℕ) → IsBytes (x ∷ k)
      → at_slots mapping (set_slot xs (mapping y) t) (mapping x) k ≡ (
          if x == y
          then put (λ j. at_slots mapping xs (mapping y) j) ys e k
          else at_slots mapping xs (mapping x) k)
  at-table xs y ys e t wide indexed below x k bytes = elim (Bool-cases (x == y)) [
    | inl same ↦
        let eq : x ≡ y = ground (arith, same) in
        rw (same, eq)
          (at_slots-set_same mapping xs (mapping y) t k (omega (arith, wide, indexed.0))
            ∙ below k bytes.1)
    | inr differs ↦ rw differs (
        at_slots-set_other mapping xs (mapping y) (mapping x) t k
          (λ eq. let same = indexed.1 x bytes.0 (sym eq) in absurd (ground (arith, same, differs))))
  ]

  -- Below a new table stand the new key and what followed the prefix's first byte.
  at-split_table :
      (v : List ℕ) (p q : ℕ) (qs : List ℕ) (next : TrieNode) (y : ℕ) (ys : List ℕ) (e : Entry)
      (t : TrieNode)
      → IsIndexed mapping table_size q
      → IsIndexed mapping table_size y
      → (q == y) ≡ false
      → ((k : List ℕ) → IsBytes k → at mapping t k ≡ put (at mapping empty_node) ys e k)
      → IsByte y
      → (k : List ℕ) → IsBytes k
      → at mapping (node v p (split_table mapping table_size q qs next y t)) k
        ≡ put (at mapping (node v p (prefixed q qs next))) (y ∷ ys) e k
  unfolding at split_table
  at-split_table v p q qs next y ys e t iq iy differ below byte [] bytes = refl
  at-split_table v p q qs next y ys e t iq iy differ below byte (x ∷ k) bytes =
      let below_prefix = set_slot (empty_slots table_size) (mapping q) (prefix_node qs next) in
      let flipped : (y == q) ≡ false = ground (arith, differ) in
      let none_at : (j : List ℕ) → at_slots mapping below_prefix (mapping y) j ≡ absent = λ j.
        at_slots-set_other mapping (empty_slots table_size) (mapping q) (mapping y)
          (prefix_node qs next) j
          (λ eq. let same = iq.1 y byte (sym eq) in absurd (ground (arith, same, differ)))
        ∙ at_slots-empty mapping table_size (mapping y) j in
      let none_before : (j : List ℕ)
          → (if y == q then strip qs (at mapping next) j else absent) ≡ absent =
        λ j. rw flipped refl in
      let old : at_slots mapping below_prefix (mapping x) k
          ≡ (if x == q then strip qs (at mapping next) k else absent) =
        elim (Bool-cases (x == q)) [
          | inl same ↦
              let eq : x ≡ q = ground (arith, same) in
              rw (same, eq)
                (at_slots-set_same mapping (empty_slots table_size) (mapping q)
                    (prefix_node qs next) k (omega (arith, width-empty table_size, iq.0))
                  ∙ at-prefix_node mapping qs next k)
          | inr other ↦ rw other (
              at_slots-set_other mapping (empty_slots table_size) (mapping q) (mapping x)
                (prefix_node qs next) k
                (λ eq. let same = iq.1 x bytes.0 (sym eq) in absurd (ground (arith, same, other)))
              ∙ at_slots-empty mapping table_size (mapping x) k)
        ] in
      at-table below_prefix y ys e t
        (width-set (empty_slots table_size) (mapping q) (prefix_node qs next)
          ∙ width-empty table_size)
        iy (λ j b. below j b ∙ put_ext _ _ (λ i. at-empty mapping i ∙ sym (none_at i)) ys e j) x k
        bytes
      ∙ rw (old, put_ext _ _ (λ i. none_at i ∙ sym (none_before i)) ys e k) refl

strip_ext_bytes :
    (qs : List ℕ) (f g : List ℕ → Entry)
    → ((k : List ℕ) → IsBytes k → f k ≡ g k)
    → (k : List ℕ) → IsBytes k
    → strip qs f k ≡ strip qs g k
strip_ext_bytes [] f g h k b = h k b
strip_ext_bytes (q ∷ qs) f g h [] b = refl
strip_ext_bytes (q ∷ qs) f g h (x ∷ k) b = rw (strip_ext_bytes qs f g h k b.1) refl

module _ (mapping : ℕ → ℕ) (table_size : ℕ) where
  at-split_prefix :
      (v : List ℕ) (p c : ℕ) (cs qs : List ℕ) (next : TrieNode) (key : List ℕ) (e : Entry)
      (t : TrieNode)
      → ((k : List ℕ) → IsBytes k → at mapping t k ≡ put (at mapping (prefix_node qs next)) key e k)
      → (k : List ℕ) → IsBytes k
      → at mapping (node v p (prefixed c cs t)) k
        ≡ put (at mapping (node v p (prefixed c (cs ++ qs) next))) (c ∷ cs ++ key) e k
  unfolding at
  at-split_prefix v p c cs qs next key e t below [] bytes = refl
  at-split_prefix v p c cs qs next key e t below (x ∷ k) bytes =
      strip_ext_bytes (c ∷ cs) _ _
        (λ j b. below j b ∙ put_ext _ _ (at-prefix_node mapping qs next) key e j) (x ∷ k) bytes
      ∙ strip-put (c ∷ cs) (strip qs (at mapping next)) key e (x ∷ k)
      ∙ put_ext _ _ (λ j. sym (strip-append (c ∷ cs) qs (at mapping next) j)) (c ∷ cs ++ key) e
          (x ∷ k)

  -- A trie that fits, in which one more entry has been put.
  abbrev pub Added : TrieNode → TrieNode → List ℕ → Entry → Type 0
  Added new t key e =
      Fits mapping table_size new
      × ((k : List ℕ) → IsBytes k → at mapping new k ≡ put (at mapping t) key e k)

  abbrev pub IsKey : List ℕ → Type 0
  IsKey key = All (IsIndexed mapping table_size) key × IsBytes key

  add-prefixed :
      (v : List ℕ) (p q : ℕ) (qs : List ℕ) (next : TrieNode) (y : ℕ) (ys : List ℕ) (e : Entry)
      (t : TrieNode) (n : ℕ)
      → common (q ∷ qs) (y ∷ ys) ≡ suc n
      → Fits mapping table_size (node v p (prefixed q qs next))
      → Added t (prefix_node (drop n qs) next) (drop n ys) e
      → Added
          (node v p (prefix_links (take (suc n) (q ∷ qs)) t))
          (node v p (prefixed q qs next))
          (y ∷ ys)
          e
  unfolding Fits
  add-prefixed v p q qs next y ys e t n eq fits added =
      let same : take (suc n) (y ∷ ys) ≡ take (suc n) (q ∷ qs) =
        subst (λ m. take m (y ∷ ys) ≡ take m (q ∷ qs)) eq (take-common (q ∷ qs) (y ∷ ys)) in
      let key : q ∷ take n qs ++ drop n ys ≡ y ∷ ys =
        ap (λ l. l ++ drop n ys) (sym same) ∙ take-append-drop (suc n) (y ∷ ys) in
      let prefix : take n qs ++ drop n qs ≡ qs = take-append-drop n qs in
      (
        FitsLinks-prefix mapping table_size (take (suc n) (q ∷ qs)) t
            (All-take _ (suc n) (q ∷ qs) fits.0) added.0,
        λ k b.
            at-split_prefix v p q (take n qs) (drop n qs) next (drop n ys) e t added.1 k b
            ∙ ap₂ (λ l m. put (at mapping (node v p (prefixed q l next))) m e k) prefix key,
      )

  at-node_table :
      (v : List ℕ) (p : ℕ) (xs : Slots) (y : ℕ) (ys : List ℕ) (e : Entry) (t : TrieNode)
      → width xs ≡ table_size
      → IsIndexed mapping table_size y
      → ((k : List ℕ)
          → IsBytes k
          → at mapping t k ≡ put (λ j. at_slots mapping xs (mapping y) j) ys e k)
      → (k : List ℕ) → IsBytes k
      → at mapping (node v p (table (set_slot xs (mapping y) t))) k
        ≡ put (at mapping (node v p (table xs))) (y ∷ ys) e k
  unfolding at
  at-node_table v p xs y ys e t wide indexed below [] bytes = refl
  at-node_table v p xs y ys e t wide indexed below (x ∷ k) bytes =
      at-table mapping table_size xs y ys e t wide indexed below x k bytes

  Fits-split_table :
      (q : ℕ) (qs : List ℕ) (next : TrieNode) (y : ℕ) (t : TrieNode)
      → FitsLinks mapping table_size (prefixed q qs next)
      → Fits mapping table_size t
      → FitsLinks mapping table_size (split_table mapping table_size q qs next y t)
  unfolding Fits split_table
  Fits-split_table q qs next y t fits below =
      let old = Fits-prefix_node mapping table_size qs next fits.0.1 fits.1 in
      (
        width-set _ (mapping y) t
            ∙ width-set (empty_slots table_size) (mapping q) (prefix_node qs next)
            ∙ width-empty table_size,
        FitsSlots-set mapping table_size _ (mapping y) t
            (FitsSlots-set mapping table_size (empty_slots table_size) (mapping q)
              (prefix_node qs next) (FitsSlots-empty mapping table_size table_size) old)
            below,
      )

  pub add-Added :
      (fuel : ℕ) (t : TrieNode) (key v : List ℕ) (p : ℕ)
      → Fits mapping table_size t
      → length key ≤ fuel
      → IsKey key
      → Added (add mapping table_size fuel t key v p) t key (entry v p)
  unfolding Fits add
  add-Added fuel t [] v p fits enough keys =
      (Fits-set_value mapping table_size t v p fits, λ k b. at-set_value mapping t v p k)
  add-Added zero t (y ∷ ys) v p fits enough keys = absurd (omega arith)
  add-Added (suc fuel) (node w r bare) (y ∷ ys) v p fits enough keys = (
    (keys.0, Fits-set_value mapping table_size empty_node v p tt),
    λ k b. at-leaf mapping table_size w r y ys v p k,
  )
  add-Added (suc fuel) (node w r (table xs)) (y ∷ ys) v p fits enough keys =
      let old = slot_or_new (get_slot xs (mapping y)) in
      let below =
        add-Added fuel old ys v p (Fits-slot mapping table_size xs (mapping y) fits.1)
          (omega (arith, enough)) (keys.0.1, keys.1.1) in
      (
        (
          width-set xs (mapping y) _ ∙ fits.0,
          FitsSlots-set mapping table_size xs (mapping y) _ fits.1 below.0,
        ),
        at-node_table w r xs y ys (entry v p) _ fits.0 keys.0.0 (λ j b.
            below.1 j b
            ∙ put_ext _ _ (λ i. sym (at_slots-get mapping xs (mapping y) i)) ys (entry v p) j),
      )
  add-Added (suc fuel) (node w r (prefixed q qs next)) (y ∷ ys) v p fits enough keys =
      elim (Bool-cases (q == y)) [
        | inl same ↦
            let n = common qs ys in
            let below =
              add-Added fuel (prefix_node (drop n qs) next) (drop n ys) v p
                (Fits-prefix_node mapping table_size (drop n qs) next (All-drop _ n qs fits.0.1)
                  fits.1)
                (omega (arith, enough, length-drop n ys))
                (All-drop _ n ys keys.0.1, All-drop _ n ys keys.1.1) in
            let nonzero : (suc n == 0) ≡ false = ground arith in
            rw (same, nonzero)
              (add-prefixed w r q qs next y ys (entry v p) _ n (rw same refl) fits below)
        | inr differ ↦
            let below =
              add-Added fuel empty_node ys v p tt (omega (arith, enough)) (keys.0.1, keys.1.1) in
            rw differ (
              Fits-split_table q qs next y _ fits below.0,
              at-split_table mapping table_size w r q qs next y ys (entry v p) _ fits.0.0 keys.0.0
                  differ below.1 keys.1.0,
            )
      ]
