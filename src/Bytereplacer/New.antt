-- ===== src/Bytereplacer/New.antt =====
-- bytereplacer/bytereplacer.go: New, byteReplacer, and Replace of either algorithm.
use go.Common.{
  ℕ, zero, suc, ◌+◌, ◌%◌, ◌≤◌, ◌<◌, ◌≡◌, refl, sym, ap, ap₂, subst, ◌∙◌, arith, Bool, true, false,
  ◌&&◌, List, [], ◌∷◌, map, Option, none, some, ◌==◌, if◌then◌else◌, All, length, get_or, set, take,
  Bool-cases, Option-cases, inl, inr, length-set,
}
use go.Bytereplacer.Generic.{Pair, GenericReplacer, make_generic_replacer}
use go.Bytereplacer.Generic.First.{first_match}
use go.Bytereplacer.Generic.Index.{HasByteKeys}
use go.Bytereplacer.Trie.Entries.{IsByte, IsBytes}
use go.Bytereplacer.Replace.{replace}
use go.Bytereplacer.Replace.Matches.{replaced, at_byte}
use go.Bytereplacer.Replace.InPlace.{replace-replaced}

-- The table of byteReplacer, or the generic algorithm.
pub data Replacer : Type 0 where
  byte_replacer : List ℕ → Replacer
  generic : GenericReplacer → Replacer

-- The pairs of the arguments; none for an odd number, where New panics.
unfoldable pub pairs_of : List (List ℕ) → Option (List Pair)
pairs_of [] = some []
pairs_of (old ∷ []) = none
pairs_of (old ∷ new ∷ rest) = elim (pairs_of rest) [
  | none ↦ none
  | some pairs ↦ some (record { old = old; new = new } ∷ pairs)
]

-- The loop over the pairs: whether all old strings, and all new ones, are single bytes.
unfoldable pub all_old_bytes : List Pair → Bool
all_old_bytes [] = true
all_old_bytes (p ∷ pairs) = (length (p.old) == 1) && all_old_bytes pairs

unfoldable pub all_new_bytes : List Pair → Bool
all_new_bytes [] = true
all_new_bytes (p ∷ pairs) = (length (p.new) == 1) && all_new_bytes pairs

-- r[i] = byte(i) for n bytes from i on.
abbrev pub identity_table : ℕ → ℕ → List ℕ
identity_table zero i = []
identity_table (suc n) i = i ∷ identity_table n (i + 1)

-- From the last pair to the first, so that the first one for a byte stays.
unfoldable pub byte_table : List Pair → List ℕ
byte_table [] = identity_table 256 0
byte_table (p ∷ pairs) = set (byte_table pairs) (get_or (p.old) 0 0) (get_or (p.new) 0 0)

-- The choice of the algorithm.
abbrev pub choose : List Pair → Replacer
unfolding all_old_bytes all_new_bytes byte_table make_generic_replacer
choose pairs =
    if all_old_bytes pairs && all_new_bytes pairs
    then byte_replacer (byte_table pairs)
    else generic (make_generic_replacer pairs)

abbrev pub choose_if : Option (List Pair) → Option Replacer
choose_if none = none
choose_if (some pairs) = some (choose pairs)

unfoldable pub new : List (List ℕ) → Option Replacer
unfolding pairs_of choose
new oldnew = choose_if (pairs_of oldnew)

-- byteReplacer.Replace: s[i] = r[b] for each byte.
unfoldable pub replace_bytes : List ℕ → List ℕ → List ℕ
replace_bytes r s = map (λ b. get_or r b 0) s

-- Replacer.Replace, on the slice of the first len bytes of an array.
unfoldable pub replace_with : Replacer → List ℕ → ℕ → Option (List ℕ)
unfolding replace replace_bytes
replace_with (byte_replacer r) mem len = some (replace_bytes r (take len mem))
replace_with (generic r) mem len = replace r mem len

get-identity : (n i b : ℕ) → b < n → get_or (identity_table n i) b 0 ≡ i + b
get-identity zero i b h = absurd (omega arith)
get-identity (suc n) i zero h = omega arith
get-identity (suc n) i (suc b) h = omega (arith, get-identity n (i + 1) b (omega arith))

length-identity : (n i : ℕ) → length (identity_table n i) ≡ n
length-identity zero i = refl
length-identity (suc n) i = ap suc (length-identity n (i + 1))

length-byte_table : (pairs : List Pair) → length (byte_table pairs) ≡ 256
unfolding byte_table
length-byte_table [] = length-identity 256 0
length-byte_table (p ∷ pairs) = length-set (byte_table pairs) _ _ ∙ length-byte_table pairs

get-set :
    (m : List ℕ) (i j v : ℕ)
    → j < length m
    → get_or (set m i v) j 0 ≡ (if j == i then v else get_or m j 0)
get-set [] i j v h = absurd (omega arith)
get-set (x ∷ m) zero zero v h = refl
get-set (x ∷ m) zero (suc j) v h = let e : (suc j == 0) ≡ false = ground arith in rw e refl
get-set (x ∷ m) (suc i) zero v h = let e : (0 == suc i) ≡ false = ground arith in rw e refl
get-set (x ∷ m) (suc i) (suc j) v h =
    let e : (suc j == suc i) ≡ (j == i) = ground arith in rw e (get-set m i j v (omega arith))

abbrev IsSingle : Pair → Type 0
IsSingle p = (o : ℕ) × (n : ℕ) × (p ≡ record { old = o ∷ []; new = n ∷ [] })

-- What a table of single bytes has for a byte is what the first pair that matches there gives.
at_byte-table :
    (pairs : List Pair)
    → All IsSingle pairs
    → (b : ℕ) → IsByte b
    → (s : List ℕ) (nonempty : Option (List ℕ × ℕ)) (later : ℕ → List ℕ)
    → at_byte later b nonempty (first_match pairs (b ∷ s) false)
      ≡ get_or (byte_table pairs) b 0 ∷ later 0
unfolding byte_table first_match
at_byte-table [] singles b byte s nonempty later =
    ap (λ x. x ∷ later 0) {x = b} (sym (get-identity 256 0 b byte ∙ (omega arith)))
at_byte-table (p ∷ pairs) ((o, n, e), singles) b byte s nonempty later =
    let rest = at_byte-table pairs singles b byte s nonempty later in
    let entry = get-set (byte_table pairs) o b n (omega (arith, byte, length-byte_table pairs)) in
    rw e (elim (Bool-cases (b == o)) [
      | inl same ↦ rw (entry, same) refl
      | inr differ ↦ rw (entry, differ) rest
    ])

singles_no_end : (pairs : List Pair) → All IsSingle pairs → first_match pairs [] false ≡ none
unfolding first_match
singles_no_end [] singles = refl
singles_no_end (p ∷ pairs) ((o, n, e), singles) = rw e (singles_no_end pairs singles)

length_one : (xs : List ℕ) → (length xs == 1) ≡ true → (x : ℕ) × (xs ≡ x ∷ [])
length_one [] h = absurd (ground (arith, h))
length_one (x ∷ []) h = (x, refl)
length_one (x ∷ y ∷ xs) h = absurd (ground (arith, h))

all-IsSingle :
    (pairs : List Pair) → (all_old_bytes pairs && all_new_bytes pairs) ≡ true → All IsSingle pairs
unfolding all_old_bytes all_new_bytes
all-IsSingle [] h = tt
all-IsSingle (p ∷ pairs) h =
    let old = length_one (p.old) (ground (arith, h)) in
    let new = length_one (p.new) (ground (arith, h)) in
    (
      (old.0, new.0, ap₂ (λ o n. record { old = o; new = n }) old.1 new.1),
      all-IsSingle pairs (ground (arith, h)),
    )

replace_bytes-replaced :
    (pairs : List Pair)
    → All IsSingle pairs
    → (s : List ℕ) → IsBytes s
    → replace_bytes (byte_table pairs) s ≡ replaced pairs 0 s
unfolding replace_bytes replaced
replace_bytes-replaced pairs singles [] bytes = rw (singles_no_end pairs singles) refl
replace_bytes-replaced pairs singles (b ∷ s) bytes =
    ap (λ t. get_or (byte_table pairs) b 0 ∷ t) (replace_bytes-replaced pairs singles s bytes.1)
    ∙ sym (
        at_byte-table pairs singles b bytes.0 s (first_match pairs (b ∷ s) true)
          (λ n. replaced pairs n s))

some_inj : {a b : List Pair} → some a ≡ some b → a ≡ b
some_inj {a} e = ap (λ o. or_else o a) e
  where
    or_else : Option (List Pair) → List Pair → List Pair
    or_else none d = d
    or_else (some x) d = x

HasByteKeys-pairs :
    (oldnew : List (List ℕ))
    → All IsBytes oldnew
    → (pairs : List Pair) → pairs_of oldnew ≡ some pairs
    → HasByteKeys pairs
unfolding pairs_of
HasByteKeys-pairs [] bytes pairs e = subst HasByteKeys (some_inj e) tt
HasByteKeys-pairs (o ∷ []) bytes pairs e = absurd (ground (arith, e))
HasByteKeys-pairs (o ∷ n ∷ rest) bytes pairs e = elim (Option-cases (pairs_of rest)) [
  | inl g ↦ absurd (ground (arith, e, g))
  | inr (ps, g) ↦
      let all : some (record { old = o; new = n } ∷ ps) ≡ some pairs = sym (rw g refl) ∙ e in
      subst HasByteKeys (some_inj all) (bytes.0, HasByteKeys-pairs rest bytes.1.1 ps g)
]

abbrev pub replace_if : Option Replacer → List ℕ → ℕ → Option (List ℕ)
unfolding replace_with
replace_if none mem len = none
replace_if (some r) mem len = replace_with r mem len

-- New(oldnew...).Replace(s); none where New panics.
unfoldable pub new_replace : List (List ℕ) → List ℕ → ℕ → Option (List ℕ)
unfolding new replace_if
new_replace oldnew mem len = replace_if (new oldnew) mem len

-- The arguments two by two, an odd last one left over.
abbrev pub pair_up : List (List ℕ) → List Pair
pair_up [] = []
pair_up (old ∷ []) = []
pair_up (old ∷ new ∷ rest) = record { old = old; new = new } ∷ pair_up rest

add_two_odd : (n : ℕ) → (suc (suc n) % 2 == 1) ≡ (n % 2 == 1)
add_two_odd n = let same : suc (suc n) % 2 ≡ n % 2 = omega arith in ap (λ m. m == 1) same

pairs_of_lem :
    (oldnew : List (List ℕ))
    → pairs_of oldnew ≡ (if length oldnew % 2 == 1 then none else some (pair_up oldnew))
unfolding pairs_of
pairs_of_lem [] = refl
pairs_of_lem (old ∷ []) = refl
pairs_of_lem (old ∷ new ∷ rest) = elim (Bool-cases (length rest % 2 == 1)) [
  | inl odd ↦ rw (pairs_of_lem rest, add_two_odd (length rest), odd) refl
  | inr even ↦ rw (pairs_of_lem rest, add_two_odd (length rest), even) refl
]

-- New panics exactly for an odd number of arguments, and otherwise Replace returns what the
-- arguments, two by two, make of the whole slice, with either of the two algorithms: New chooses
-- the table of bytes where all strings are single bytes, and the trie elsewhere. The strings and
-- the slice consist of bytes below 256, and the slice lies in an array that can hold it.
pub new_replace-replaced :
    (oldnew : List (List ℕ))
    → All IsBytes oldnew
    → (mem : List ℕ) (len : ℕ) → len ≤ length mem
    → IsBytes (take len mem)
    → new_replace oldnew mem len
      ≡ (if length oldnew % 2 == 1 then none else some (replaced (pair_up oldnew) 0 (take len mem)))
unfolding new_replace new replace_with replace_if choose
new_replace-replaced oldnew args mem len fits bytes = elim (Bool-cases (length oldnew % 2 == 1)) [
  | inl odd ↦
      let e : pairs_of oldnew ≡ none = rw (pairs_of_lem oldnew, odd) refl in rw (e, odd) refl
  | inr even ↦
      let pairs = pair_up oldnew in
      let e : pairs_of oldnew ≡ some pairs = rw (pairs_of_lem oldnew, even) refl in
      elim (Bool-cases (all_old_bytes pairs && all_new_bytes pairs)) [
        | inl single ↦
            rw (e, even, single)
              (ap some
                (replace_bytes-replaced pairs (all-IsSingle pairs single) (take len mem) bytes))
        | inr general ↦
            rw (e, even, general)
              (replace-replaced pairs (HasByteKeys-pairs oldnew args pairs e) mem len fits bytes)
      ]
]
