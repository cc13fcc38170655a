-- ===== src/Bytereplacer/Generic/Index.antt =====
-- bytereplacer/bytereplacer.go: makeGenericReplacer gives each byte that is used an index of its own.
use go.Common.{
  ℕ, zero, suc, ◌+◌, ◌%◌, ◌≤◌, ◌<◌, ◌≡◌, refl, ap, subst, ◌∙◌, arith, true, List, [], ◌∷◌, ◌==◌,
  if◌then◌else◌, All, length, get_or, set, Bool-cases, ◌⊎◌, inl, inr, length-set,
}
use go.Bytereplacer.Trie.Entries.{IsBytes, IsIndexed}
use go.Bytereplacer.Generic.{Pair, mark_key, mark_keys, total, assign, index_of}

abbrev pub IsMark : ℕ → Type 0
IsMark b = b ≤ 1

get-set_same : (m : List ℕ) (i v : ℕ) → i < length m → get_or (set m i v) i 0 ≡ v
get-set_same [] i v h = absurd (omega arith)
get-set_same (x ∷ m) zero v h = refl
get-set_same (x ∷ m) (suc i) v h = get-set_same m i v (omega arith)

-- A mark stays when another is set.
get-set_one : (m : List ℕ) (i j : ℕ) → get_or m j 0 ≡ 1 → get_or (set m i 1) j 0 ≡ 1
get-set_one [] i j h = h
get-set_one (x ∷ m) zero zero h = refl
get-set_one (x ∷ m) zero (suc j) h = h
get-set_one (x ∷ m) (suc i) zero h = h
get-set_one (x ∷ m) (suc i) (suc j) h = get-set_one m i j h

IsMark-set : (m : List ℕ) (i : ℕ) → All IsMark m → All IsMark (set m i 1)
IsMark-set [] i h = tt
IsMark-set (x ∷ m) zero h = (omega arith, h.1)
IsMark-set (x ∷ m) (suc i) h = (h.0, IsMark-set m i h.1)

-- Marks for 256 bytes, the given ones among them.
abbrev pub Marks : List ℕ → List ℕ → Type 0
Marks m key = (length m ≡ 256) × All IsMark m × All (λ b. get_or m b 0 ≡ 1) key

mark_key-keeps : (key m : List ℕ) (b : ℕ) → get_or m b 0 ≡ 1 → get_or (mark_key m key) b 0 ≡ 1
mark_key-keeps [] m b h = h
mark_key-keeps (x ∷ key) m b h = mark_key-keeps key (set m x 1) b (get-set_one m x b h)

mark_keys-keeps :
    (ps : List Pair) (m : List ℕ) (b : ℕ) → get_or m b 0 ≡ 1 → get_or (mark_keys m ps) b 0 ≡ 1
mark_keys-keeps [] m b h = h
mark_keys-keeps (p ∷ ps) m b h =
    mark_keys-keeps ps (mark_key m (p.old)) b (mark_key-keeps (p.old) m b h)

pub All_weaken : (P Q : ℕ → Type 0) → ((b : ℕ) → P b → Q b) → (xs : List ℕ) → All P xs → All Q xs
All_weaken P Q h [] a = tt
All_weaken P Q h (x ∷ xs) a = (h x a.0, All_weaken P Q h xs a.1)

mark_key-Marks :
    (key m : List ℕ) → IsBytes key → length m ≡ 256 → All IsMark m → Marks (mark_key m key) key
mark_key-Marks [] m bytes len marks = (len, marks, tt)
mark_key-Marks (x ∷ key) m bytes len marks =
    let later =
      mark_key-Marks key (set m x 1) bytes.1 (length-set m x 1 ∙ len) (IsMark-set m x marks) in
    (
      later.0,
      later.1,
      (
        mark_key-keeps key (set m x 1) x (get-set_same m x 1 (omega (arith, bytes.0, len))),
        later.2,
      ),
    )

-- The keys of the pairs are bytes.
abbrev pub HasByteKeys : List Pair → Type 0
HasByteKeys ps = All (λ p. IsBytes (p.old)) ps

abbrev pub AllMarked : List ℕ → List Pair → Type 0
AllMarked m ps = All (λ p. All (λ b. get_or m b 0 ≡ 1) (p.old)) ps

pub mark_keys-Marks :
    (ps : List Pair) (m : List ℕ)
    → HasByteKeys ps
    → length m ≡ 256
    → All IsMark m
    → (length (mark_keys m ps) ≡ 256) × All IsMark (mark_keys m ps) × AllMarked (mark_keys m ps) ps
mark_keys-Marks [] m bytes len marks = (len, marks, tt)
mark_keys-Marks (p ∷ ps) m bytes len marks =
    let first = mark_key-Marks (p.old) m bytes.0 len marks in
    let later = mark_keys-Marks ps (mark_key m (p.old)) bytes.1 first.0 first.1 in
    (
      later.0,
      later.1,
      (All_weaken _ _ (λ b. mark_keys-keeps ps (mark_key m (p.old)) b) (p.old) first.2, later.2),
    )

total-le : (m : List ℕ) → All IsMark m → total m ≤ length m
total-le [] h = omega arith
total-le (x ∷ m) h = omega (arith, h.0, total-le m h.1)

-- The indices without the wrap-around of a byte.
abbrev plain : List ℕ → ℕ → ℕ → List ℕ
plain [] c index = []
plain (b ∷ m) c index =
    (if b == 0 then c else index) ∷ plain m c (if b == 0 then index else suc index)

plain_unused : (m : List ℕ) (c i j : ℕ) → total m ≡ 0 → plain m c i ≡ plain m c j
plain_unused [] c i j h = refl
plain_unused (b ∷ m) c i j h =
    let z : (b == 0) ≡ true = ground (arith, h) in
    rw z (rw (plain_unused m c i j (omega (arith, h))) refl)

assign-plain :
    (m : List ℕ) (size index : ℕ)
    → All IsMark m
    → index + total m ≤ 256
    → assign m size index ≡ plain m (size % 256) index
assign-plain [] size index h le = refl
assign-plain (b ∷ m) size index h le = elim (Bool-cases (b == 0)) [
  | inl unused ↦ rw unused (rw (assign-plain m size index h.1 (omega (arith, le))) refl)
  | inr used ↦
      let one : b ≡ 1 = ground (arith, used, h.0) in
      rw used (
        ap (λ t. index ∷ t)
          (elim (Bool-cases (total m == 0)) [
            | inl none_left ↦
                let z : total m ≡ 0 = ground (arith, none_left) in
                assign-plain m size ((index + 1) % 256) h.1 (omega (arith, z))
                ∙ plain_unused m (size % 256) ((index + 1) % 256) (suc index) z
            | inr some_left ↦
                let lt : suc index < 256 = ground (arith, some_left, le, one) in
                let e : (index + 1) % 256 ≡ suc index = omega (arith, lt) in
                rw e (assign-plain m size (suc index) h.1 (omega (arith, le, one)))
          ]))
]

-- The bytes not used have a mark above all indices, unless every byte is used.
abbrev Apart : List ℕ → ℕ → ℕ → Type 0
Apart m c index = (index + total m ≤ c) ⊎ (total m ≡ length m)

plain-bounds :
    (m : List ℕ) (c index i : ℕ)
    → get_or m i 0 ≡ 1
    → (index ≤ get_or (plain m c index) i 0) × (get_or (plain m c index) i 0 < index + total m)
plain-bounds [] c index i h = absurd (omega (arith, h))
plain-bounds (b ∷ m) c index zero h = rw h (omega arith, omega arith)
plain-bounds (b ∷ m) c index (suc i) h = elim (Bool-cases (b == 0)) [
  | inl unused ↦
      let later = plain-bounds m c index i h in
      let z : b ≡ 0 = ground (arith, unused) in rw unused (later.0, omega (arith, later.1, z))
  | inr used ↦
      let later = plain-bounds m c (suc index) i h in
      let pos : 0 < b = ground (arith, used) in
      rw used (omega (arith, later.0), omega (arith, later.1, pos))
]

Apart-unused :
    (m : List ℕ) (c index : ℕ) → All IsMark m → Apart (0 ∷ m) c index → index + total m ≤ c
Apart-unused m c index h (inl le) = omega (arith, le)
Apart-unused m c index h (inr e) = absurd (omega (arith, e, total-le m h))

Apart-used : (m : List ℕ) (c index : ℕ) → Apart (1 ∷ m) c index → Apart m c (suc index)
Apart-used m c index (inl le) = inl (omega (arith, le))
Apart-used m c index (inr e) = inr (omega (arith, e))

IsMark-cases : (b : ℕ) → IsMark b → (b ≡ 0) ⊎ (b ≡ 1)
IsMark-cases b h = ground arith

plain-low :
    (m : List ℕ) (c index j : ℕ)
    → All IsMark m
    → Apart m c index
    → j < length m
    → index ≤ get_or (plain m c index) j 0
plain-low [] c index j h apart lt = absurd (omega arith)
plain-low (b ∷ m) c index zero h apart lt = elim (IsMark-cases b h.0) [
  | inl z ↦
      let le = Apart-unused m c index h.1 (subst (λ x. Apart (x ∷ m) c index) z apart) in
      rw z (omega (arith, le))
  | inr o ↦ rw o (omega arith)
]
plain-low (b ∷ m) c index (suc j) h apart lt = elim (IsMark-cases b h.0) [
  | inl z ↦
      let le = Apart-unused m c index h.1 (subst (λ x. Apart (x ∷ m) c index) z apart) in
      rw z (plain-low m c index j h.1 (inl le) (omega (arith, lt)))
  | inr o ↦
      let rest = Apart-used m c index (subst (λ x. Apart (x ∷ m) c index) o apart) in
      let low = plain-low m c (suc index) j h.1 rest (omega (arith, lt)) in
      rw o (omega (arith, low))
]

-- A byte that has the index of a byte used is that byte.
plain_inj :
    (m : List ℕ) (c index i j : ℕ)
    → All IsMark m
    → Apart m c index
    → get_or m i 0 ≡ 1
    → j < length m
    → get_or (plain m c index) j 0 ≡ get_or (plain m c index) i 0
    → j ≡ i
plain_inj [] c index i j h apart used lt e = absurd (omega arith)
plain_inj (b ∷ m) c index zero zero h apart used lt e = refl
plain_inj (b ∷ m) c index zero (suc j) h apart used lt e =
    let rest = Apart-used m c index (subst (λ x. Apart (x ∷ m) c index) used apart) in
    let low = plain-low m c (suc index) j h.1 rest (omega (arith, lt)) in
    let same : get_or (plain (1 ∷ m) c index) (suc j) 0 ≡ index =
      subst (λ x. get_or (plain (x ∷ m) c index) (suc j) 0 ≡ get_or (plain (x ∷ m) c index) 0 0)
        used e in
    absurd (omega (arith, low, same))
plain_inj (b ∷ m) c index (suc i) zero h apart used lt e = elim (IsMark-cases b h.0) [
  | inl z ↦
      let le = Apart-unused m c index h.1 (subst (λ x. Apart (x ∷ m) c index) z apart) in
      let same : c ≡ get_or (plain m c index) i 0 =
        subst (λ x. get_or (plain (x ∷ m) c index) 0 0 ≡ get_or (plain (x ∷ m) c index) (suc i) 0) z
          e in
      absurd (omega (arith, le, same, (plain-bounds m c index i used).1))
  | inr o ↦
      let same : index ≡ get_or (plain m c (suc index)) i 0 =
        subst (λ x. get_or (plain (x ∷ m) c index) 0 0 ≡ get_or (plain (x ∷ m) c index) (suc i) 0) o
          e in
      absurd (omega (arith, same, (plain-bounds m c (suc index) i used).0))
]
plain_inj (b ∷ m) c index (suc i) (suc j) h apart used lt e = elim (IsMark-cases b h.0) [
  | inl z ↦
      let le = Apart-unused m c index h.1 (subst (λ x. Apart (x ∷ m) c index) z apart) in
      let same : get_or (plain m c index) j 0 ≡ get_or (plain m c index) i 0 =
        subst
          (λ x. get_or (plain (x ∷ m) c index) (suc j) 0 ≡ get_or (plain (x ∷ m) c index) (suc i) 0)
          z e in
      ap suc (plain_inj m c index i j h.1 (inl le) used (omega (arith, lt)) same)
  | inr o ↦
      let rest = Apart-used m c index (subst (λ x. Apart (x ∷ m) c index) o apart) in
      let same : get_or (plain m c (suc index)) j 0 ≡ get_or (plain m c (suc index)) i 0 =
        subst
          (λ x. get_or (plain (x ∷ m) c index) (suc j) 0 ≡ get_or (plain (x ∷ m) c index) (suc i) 0)
          o e in
      ap suc (plain_inj m c (suc index) i j h.1 rest used (omega (arith, lt)) same)
]

-- Every byte that is marked gets an index of its own, below the size of the tables.
pub assign-IsIndexed :
    (m : List ℕ)
    → length m ≡ 256
    → All IsMark m
    → (y : ℕ) → get_or m y 0 ≡ 1
    → IsIndexed (index_of (assign m (total m) 0)) (total m) y
assign-IsIndexed m len marks y used =
    let le = total-le m marks in
    let apart : Apart m (total m % 256) 0 = elim (Bool-cases (total m == 256)) [
      | inl full ↦ inr (ground (arith, full, len))
      | inr more ↦ let lt : total m < 256 = ground (arith, more, le, len) in inl (omega (arith, lt))
    ] in
    let e = assign-plain m (total m) 0 marks (omega (arith, le, len)) in
    let bounds = plain-bounds m (total m % 256) 0 y used in
    rw e (
      omega (arith, bounds.1),
      λ x byte same.
          plain_inj m (total m % 256) 0 y x marks apart used (omega (arith, byte, len)) same,
    )
