-- ===== src/Bytereplacer/Generic/First.antt =====
-- bytereplacer/bytereplacer.go: lookup finds the first pair, in the order of the arguments, whose
-- old string the bytes begin with.
pub mod Scanned
pub mod Built
use go.Common.{
  ℕ, suc, ◌-◌, ◌*◌, ◌≤◌, ◌<◌, ◌≡◌, refl, ap₂, subst, ◌∙◌, arith, Bool, true, false, not, ◌&&◌, List,
  [], ◌∷◌, Option, none, some, ◌==◌, if◌then◌else◌, length, Bool-cases, ◌⊎◌, inl, inr,
}
use go.Bytereplacer.Trie.{has_prefix, Best}
use go.Bytereplacer.Trie.Entries.{Entry, entry, absent, put}
use go.Bytereplacer.Generic.{Pair}

abbrev pub is_empty : List ℕ → Bool
is_empty [] = true
is_empty (b ∷ s) = false

abbrev pub same : List ℕ → List ℕ → Bool
same [] [] = true
same [] (y ∷ ys) = false
same (x ∷ xs) [] = false
same (x ∷ xs) (y ∷ ys) = (x == y) && same xs ys

-- An old string that bytes s begin with, the empty one left out on request.
abbrev pub usable : List ℕ → Bool → List ℕ → Bool
usable s ignore_empty key = has_prefix s key && not (ignore_empty && is_empty key)

-- The first pair that can be used: its new string and the length of its old one.
unfoldable pub first_match : List Pair → List ℕ → Bool → Option (List ℕ × ℕ)
first_match [] s ignore_empty = none
first_match (p ∷ pairs) s ignore_empty =
    let later = first_match pairs s ignore_empty in
    if usable s ignore_empty (p.old) then some (p.new, length (p.old)) else later

abbrev pub result : Best → Option (List ℕ × ℕ)
result best = if best.found then some (best.val, best.keylen) else none

-- The first pair with this key.
abbrev pub entry_of : List Pair → List ℕ → Entry
entry_of [] k = absent
entry_of (p ∷ pairs) k =
    if same (p.old) k then entry (p.new) (2 * suc (length pairs)) else entry_of pairs k

pub entry_of-le : (pairs : List Pair) (k : List ℕ) → (entry_of pairs k).priority ≤ 2 * length pairs
entry_of-le [] k = omega arith
entry_of-le (p ∷ pairs) k = elim (Bool-cases (same (p.old) k)) [
  | inl y ↦ rw y (omega arith)
  | inr n ↦ rw n (omega (arith, entry_of-le pairs k))
]

pub same_refl : (k : List ℕ) → same k k ≡ true
same_refl [] = refl
same_refl (x ∷ k) = let e : (x == x) ≡ true = ground arith in rw (e, same_refl k) refl

pub same→eq : (a b : List ℕ) → same a b ≡ true → a ≡ b
same→eq [] [] h = refl
same→eq [] (y ∷ ys) h = absurd (ground (arith, h))
same→eq (x ∷ xs) [] h = absurd (ground (arith, h))
same→eq (x ∷ xs) (y ∷ ys) h = elim (Bool-cases (x == y)) [
  | inl e ↦
      let tail : same xs ys ≡ true = subst (λ b. (b && same xs ys) ≡ true) e h in
      let head : x ≡ y = ground (arith, e) in ap₂ (λ a b. a ∷ b) head (same→eq xs ys tail)
  | inr n ↦
      let no : false ≡ true = subst (λ b. (b && same xs ys) ≡ true) n h in
      absurd (ground (arith, no))
]

pub put-same :
    (f : List ℕ → Entry) (key : List ℕ) (e : Entry) (k : List ℕ)
    → put f key e k ≡ (if same key k && ((f k).priority == 0) then e else f k)
put-same f [] e [] = refl
put-same f [] e (x ∷ k) = refl
put-same f (y ∷ ys) e [] = refl
put-same f (y ∷ ys) e (x ∷ k) = elim (Bool-cases (x == y)) [
  | inl h ↦
      let head : x ≡ y = ground (arith, h) in
      let h' : (y == x) ≡ true = ground (arith, h) in
      rw (h, h') (put-same (λ j. f (y ∷ j)) ys e k ∙ rw head refl)
  | inr h ↦ let h' : (y == x) ≡ false = ground (arith, h) in rw (h, h') refl
]

-- An entry that is absent, or stays.
abbrev pub Clean : Entry → Type 0
Clean e = (e ≡ absent) ⊎ (0 < e.priority)

abbrev pub before : Entry → Entry → Entry
before e later = if e.priority == 0 then later else e

pub Clean-before_absent : (e : Entry) → Clean e → e ≡ before e absent
Clean-before_absent e (inl h) = rw h refl
Clean-before_absent e (inr h) = let n : (e.priority == 0) ≡ false = ground (arith, h) in rw n refl

-- What a key has after one pair more, and after all.
pub Clean-put :
    (old : Bool) (e : Entry) (v : List ℕ) (n : ℕ) (later : Entry)
    → Clean e
    → Clean (if old && (e.priority == 0) then entry v (suc n) else e)
      × (before (if old && (e.priority == 0) then entry v (suc n) else e) later
          ≡ before e (if old then entry v (suc n) else later))
Clean-put false e v n later h = (h, refl)
Clean-put true e v n later (inl h) =
    let nonzero : (suc n == 0) ≡ false = ground arith in rw h (inr (omega arith), rw nonzero refl)
Clean-put true e v n later (inr h) =
    let nonzero : (e.priority == 0) ≡ false = ground (arith, h) in
    rw nonzero (inr h, rw nonzero refl)
