-- ===== src/Bytereplacer/Trie/Entries.antt =====
-- bytereplacer/bytereplacer.go: what a trie holds for a key, and what add changes of it.
use go.Common.{
  ℕ, zero, suc, ◌≤◌, ◌<◌, ◌≡◌, ◌≢◌, refl, ap, arith, List, [], ◌∷◌, ◌++◌, ◌==◌, if◌then◌else◌, All,
  length, take, Bool-cases, inl, inr,
}
use go.Bytereplacer.Trie.{
  TrieNode, node, Links, bare, prefixed, table, Slots, end, vacant, taken, empty_node, empty_slots,
  width, get_slot, set_slot, slot_or_new, common, prefix_node, prefix_links, set_value,
}

-- The value and the priority of a key; priority 0 where it has none.
pub record Entry : Type 0 where
  pub value : List ℕ
  pub priority : ℕ

abbrev pub entry : List ℕ → ℕ → Entry
entry v p = record { value = v; priority = p }

abbrev pub absent : Entry
absent = entry [] 0

-- The entries below a prefix.
abbrev pub strip : List ℕ → (List ℕ → Entry) → List ℕ → Entry
strip [] f k = f k
strip (q ∷ qs) f [] = absent
strip (q ∷ qs) f (x ∷ k) = if x == q then strip qs f k else absent

-- One more entry, where its key has none yet.
abbrev pub put : (List ℕ → Entry) → List ℕ → Entry → List ℕ → Entry
put f [] e [] = if (f []).priority == 0 then e else f []
put f [] e (x ∷ k) = f (x ∷ k)
put f (y ∷ ys) e [] = f []
put f (y ∷ ys) e (x ∷ k) = if x == y then put (λ j. f (y ∷ j)) ys e k else f (x ∷ k)

pub put_ext :
    (f g : List ℕ → Entry)
    → ((k : List ℕ) → f k ≡ g k)
    → (key : List ℕ) (e : Entry) (k : List ℕ) → put f key e k ≡ put g key e k
put_ext f g h [] e [] = rw (h []) refl
put_ext f g h [] e (x ∷ k) = h (x ∷ k)
put_ext f g h (y ∷ ys) e [] = h []
put_ext f g h (y ∷ ys) e (x ∷ k) =
    rw (put_ext (λ j. f (y ∷ j)) (λ j. g (y ∷ j)) (λ j. h (y ∷ j)) ys e k, h (x ∷ k)) refl

pub strip_ext :
    (qs : List ℕ) (f g : List ℕ → Entry)
    → ((k : List ℕ) → f k ≡ g k)
    → (k : List ℕ) → strip qs f k ≡ strip qs g k
strip_ext [] f g h k = h k
strip_ext (q ∷ qs) f g h [] = refl
strip_ext (q ∷ qs) f g h (x ∷ k) = rw (strip_ext qs f g h k) refl

pub strip-append :
    (cs bs : List ℕ) (f : List ℕ → Entry) (k : List ℕ)
    → strip (cs ++ bs) f k ≡ strip cs (strip bs f) k
strip-append [] bs f k = refl
strip-append (c ∷ cs) bs f [] = refl
strip-append (c ∷ cs) bs f (x ∷ k) = rw (strip-append cs bs f k) refl

-- A key below a prefix is put below it.
pub strip-put :
    (qs : List ℕ) (f : List ℕ → Entry) (key : List ℕ) (e : Entry) (k : List ℕ)
    → strip qs (put f key e) k ≡ put (strip qs f) (qs ++ key) e k
strip-put [] f key e k = refl
strip-put (q ∷ qs) f key e [] = refl
strip-put (q ∷ qs) f key e (x ∷ k) =
    let same : (j : List ℕ) → strip qs f j ≡ (if q == q then strip qs f j else absent) =
      λ j. ground arith in
    elim (Bool-cases (x == q)) [
      | inl y ↦ rw (y, strip-put qs f key e k) (put_ext _ _ same (qs ++ key) e k)
      | inr n ↦ rw n refl
    ]

module _ (mapping : ℕ → ℕ) where
  unfoldable mutual
    pub at : TrieNode → List ℕ → Entry
    at (node v p links) [] = entry v p
    at (node v p links) (x ∷ k) = at_links links x k

    pub at_links : Links → ℕ → List ℕ → Entry
    at_links bare x k = absent
    at_links (prefixed q qs next) x k = strip (q ∷ qs) (λ j. at next j) (x ∷ k)
    at_links (table xs) x k = at_slots xs (mapping x) k

    pub at_slots : Slots → ℕ → List ℕ → Entry
    at_slots end i k = absent
    at_slots (vacant xs) zero k = absent
    at_slots (taken t xs) zero k = at t k
    at_slots (vacant xs) (suc i) k = at_slots xs i k
    at_slots (taken t xs) (suc i) k = at_slots xs i k

  pub at_slots-get :
      (xs : Slots) (i : ℕ) (k : List ℕ) → at_slots xs i k ≡ at (slot_or_new (get_slot xs i)) k
  unfolding at
  at_slots-get end i [] = refl
  at_slots-get end i (x ∷ k) = refl
  at_slots-get (vacant xs) zero [] = refl
  at_slots-get (vacant xs) zero (x ∷ k) = refl
  at_slots-get (taken t xs) zero k = refl
  at_slots-get (vacant xs) (suc i) k = at_slots-get xs i k
  at_slots-get (taken t xs) (suc i) k = at_slots-get xs i k

  pub at_slots-set_same :
      (xs : Slots) (i : ℕ) (t : TrieNode) (k : List ℕ)
      → i < width xs
      → at_slots (set_slot xs i t) i k ≡ at t k
  unfolding at
  at_slots-set_same end i t k h = absurd (omega arith)
  at_slots-set_same (vacant xs) zero t k h = refl
  at_slots-set_same (taken u xs) zero t k h = refl
  at_slots-set_same (vacant xs) (suc i) t k h = at_slots-set_same xs i t k (omega arith)
  at_slots-set_same (taken u xs) (suc i) t k h = at_slots-set_same xs i t k (omega arith)

  pub at_slots-set_other :
      (xs : Slots) (i j : ℕ) (t : TrieNode) (k : List ℕ)
      → i ≢ j
      → at_slots (set_slot xs i t) j k ≡ at_slots xs j k
  unfolding at
  at_slots-set_other end i j t k h = refl
  at_slots-set_other (vacant xs) zero zero t k h = absurd (h refl)
  at_slots-set_other (vacant xs) zero (suc j) t k h = refl
  at_slots-set_other (vacant xs) (suc i) zero t k h = refl
  at_slots-set_other (vacant xs) (suc i) (suc j) t k h =
      at_slots-set_other xs i j t k (λ e. h (ap suc e))
  at_slots-set_other (taken u xs) zero zero t k h = absurd (h refl)
  at_slots-set_other (taken u xs) zero (suc j) t k h = refl
  at_slots-set_other (taken u xs) (suc i) zero t k h = refl
  at_slots-set_other (taken u xs) (suc i) (suc j) t k h =
      at_slots-set_other xs i j t k (λ e. h (ap suc e))

  pub at_slots-empty : (n i : ℕ) (k : List ℕ) → at_slots (empty_slots n) i k ≡ absent
  unfolding at
  at_slots-empty zero i k = refl
  at_slots-empty (suc n) zero k = refl
  at_slots-empty (suc n) (suc i) k = at_slots-empty n i k

  pub at-empty : (k : List ℕ) → at empty_node k ≡ absent
  unfolding at
  at-empty [] = refl
  at-empty (x ∷ k) = refl

  pub at-set_value :
      (t : TrieNode) (v : List ℕ) (p : ℕ) (k : List ℕ)
      → at (set_value t v p) k ≡ put (at t) [] (entry v p) k
  unfolding at
  at-set_value (node w q links) v p [] = elim (Bool-cases (q == 0)) [
    | inl y ↦ rw (y) refl
    | inr n ↦ rw (n) refl
  ]
  at-set_value (node w q links) v p (x ∷ k) = elim (Bool-cases (q == 0)) [
    | inl y ↦ rw (y) refl
    | inr n ↦ rw (n) refl
  ]

  -- A node for the rest of a prefix.
  pub at-prefix_node :
      (qs : List ℕ) (next : TrieNode) (k : List ℕ)
      → at (prefix_node qs next) k ≡ strip qs (at next) k
  unfolding at
  at-prefix_node [] next k = refl
  at-prefix_node (q ∷ qs) next [] = refl
  at-prefix_node (q ∷ qs) next (x ∷ k) = refl

abbrev pub IsByte : ℕ → Type 0
IsByte b = b < 256

abbrev pub IsBytes : List ℕ → Type 0
IsBytes s = All IsByte s

module _ (mapping : ℕ → ℕ) (table_size : ℕ) where
  -- A byte of some key: it has an index of its own.
  abbrev pub IsIndexed : ℕ → Type 0
  IsIndexed y = (mapping y < table_size) × ((x : ℕ) → IsByte x → mapping x ≡ mapping y → x ≡ y)

  -- Every table has its width, and every byte of a prefix its index.
  unfoldable mutual
    pub Fits : TrieNode → Type 0
    Fits (node v p links) = FitsLinks links

    pub FitsLinks : Links → Type 0
    FitsLinks bare = Unit
    FitsLinks (prefixed q qs next) = All IsIndexed (q ∷ qs) × Fits next
    FitsLinks (table xs) = (width xs ≡ table_size) × FitsSlots xs

    pub FitsSlots : Slots → Type 0
    FitsSlots end = Unit
    FitsSlots (vacant xs) = FitsSlots xs
    FitsSlots (taken t xs) = Fits t × FitsSlots xs

  pub Fits-slot : (xs : Slots) (i : ℕ) → FitsSlots xs → Fits (slot_or_new (get_slot xs i))
  unfolding Fits
  Fits-slot end i h = tt
  Fits-slot (vacant xs) zero h = tt
  Fits-slot (taken t xs) zero h = h.0
  Fits-slot (vacant xs) (suc i) h = Fits-slot xs i h
  Fits-slot (taken t xs) (suc i) h = Fits-slot xs i h.1

  pub FitsSlots-set :
      (xs : Slots) (i : ℕ) (t : TrieNode) → FitsSlots xs → Fits t → FitsSlots (set_slot xs i t)
  unfolding Fits
  FitsSlots-set end i t h g = tt
  FitsSlots-set (vacant xs) zero t h g = (g, h)
  FitsSlots-set (taken u xs) zero t h g = (g, h.1)
  FitsSlots-set (vacant xs) (suc i) t h g = FitsSlots-set xs i t h g
  FitsSlots-set (taken u xs) (suc i) t h g = (h.0, FitsSlots-set xs i t h.1 g)

  pub FitsSlots-empty : (n : ℕ) → FitsSlots (empty_slots n)
  unfolding Fits
  FitsSlots-empty zero = tt
  FitsSlots-empty (suc n) = FitsSlots-empty n

  pub Fits-prefix_node :
      (qs : List ℕ) (next : TrieNode) → All IsIndexed qs → Fits next → Fits (prefix_node qs next)
  unfolding Fits
  Fits-prefix_node [] next h g = g
  Fits-prefix_node (q ∷ qs) next h g = (h, g)

  pub FitsLinks-prefix :
      (qs : List ℕ) (next : TrieNode)
      → All IsIndexed qs
      → Fits next
      → FitsLinks (prefix_links qs next)
  unfolding Fits
  FitsLinks-prefix [] next h g = tt
  FitsLinks-prefix (q ∷ qs) next h g = (h, g)

  pub Fits-set_value : (t : TrieNode) (v : List ℕ) (p : ℕ) → Fits t → Fits (set_value t v p)
  unfolding Fits
  Fits-set_value (node w q links) v p h = elim (Bool-cases (q == 0)) [
    | inl y ↦ rw y h
    | inr n ↦ rw n h
  ]

pub width-set : (xs : Slots) (i : ℕ) (t : TrieNode) → width (set_slot xs i t) ≡ width xs
width-set end i t = refl
width-set (vacant xs) zero t = refl
width-set (taken u xs) zero t = refl
width-set (vacant xs) (suc i) t = ap suc (width-set xs i t)
width-set (taken u xs) (suc i) t = ap suc (width-set xs i t)

pub width-empty : (n : ℕ) → width (empty_slots n) ≡ n
width-empty zero = refl
width-empty (suc n) = ap suc (width-empty n)

pub common-le : (qs ks : List ℕ) → common qs ks ≤ length qs
common-le [] ks = omega arith
common-le (q ∷ qs) [] = omega arith
common-le (q ∷ qs) (k ∷ ks) = ground (arith, common-le qs ks)

pub take-common : (qs ks : List ℕ) → take (common qs ks) ks ≡ take (common qs ks) qs
take-common [] ks = refl
take-common (q ∷ qs) [] = refl
take-common (q ∷ qs) (k ∷ ks) = elim (Bool-cases (q == k)) [
  | inl y ↦ let e : q ≡ k = ground (arith, y) in rw y (rw (take-common qs ks, e) refl)
  | inr n ↦ rw n refl
]
