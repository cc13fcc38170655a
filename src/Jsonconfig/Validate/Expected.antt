-- ===== src/Jsonconfig/Validate/Expected.antt =====
-- jsonconfig/jsonconfig.go: what the accessors and Validate are to complain of, said of the decoded
-- object alone.
use go.Common.{
  ℕ, suc, ◌+◌, ◌≡◌, refl, sym, ap, ◌∙◌, arith, Bool, true, false, not, List, [], ◌∷◌, ◌++◌, map,
  Option, none, some, if◌then◌else◌, Bool-cases, ◌⊎◌, inl, inr, ◌==◌,
}
use go.Jsonconfig.{
  null, boolean, number, text, items, object, Items, no_items, item, ConfigErr, missing, wrong_type,
  bad_boolean, bad_item, Slot, json, Obj, get, same_key,
}
use go.Jsonconfig.Access.{strings_from}
use go.Jsonconfig.Validate.Whole.{as_list}
use go.Jsonconfig.Validate.{contains, has_underscore, unknown_from}

-- A call of an accessor: with its key, and with whether it is optional, its default, or neither.
pub data Request : Type 0 where
  asks_object : List ℕ → Bool → Request
  asks_string : List ℕ → Option (List ℕ) → Request
  asks_string_or_object : List ℕ → Bool → Request
  asks_bool : List ℕ → Option Bool → Request
  asks_int : List ℕ → Option ℕ → Request
  asks_list : List ℕ → Bool → Request

abbrev pub key_of : Request → List ℕ
key_of (asks_object k optional) = k
key_of (asks_string k default) = k
key_of (asks_string_or_object k required) = k
key_of (asks_bool k default) = k
key_of (asks_int k default) = k
key_of (asks_list k required) = k

abbrev lacks {ℓ} : {A : Type ℓ} → Option A → Bool
lacks none = true
lacks (some d) = false

-- Whether the key must be there.
abbrev pub is_needed : Request → Bool
is_needed (asks_object k optional) = not optional
is_needed (asks_string k default) = lacks default
is_needed (asks_string_or_object k required) = required
is_needed (asks_bool k default) = lacks default
is_needed (asks_int k default) = lacks default
is_needed (asks_list k required) = required

-- Whether all items are strings, and how many are before the first that is not.
abbrev pub all_texts : Items → Bool
all_texts no_items = true
all_texts (item (text s) rest) = all_texts rest
all_texts (item v rest) = false

abbrev pub leading_texts : Items → ℕ
leading_texts no_items = 0
leading_texts (item (text s) rest) = suc (leading_texts rest)
leading_texts (item v rest) = 0

abbrev pub is_parsed : Option Bool → Bool
is_parsed none = false
is_parsed (some b) = true

module _ (parse_bool : List ℕ → Option Bool) where
  -- Whether a value is of the kind that the accessor asks for.
  abbrev pub accepts : Request → Slot → Bool
  accepts (asks_object k o) (json (object m)) = true
  accepts (asks_string k d) (json (text s)) = true
  accepts (asks_string_or_object k r) (json (object m)) = true
  accepts (asks_string_or_object k r) (json (text s)) = true
  accepts (asks_bool k d) (json (boolean b)) = true
  accepts (asks_bool k d) (json (text s)) = is_parsed (parse_bool s)
  accepts (asks_int k d) (json (number f)) = true
  accepts (asks_list k r) (json (items eil)) = all_texts eil
  accepts r s = false

  -- The complaint of a value that it does not accept.
  abbrev pub complaint : Request → Slot → ConfigErr
  complaint (asks_bool k d) (json (text s)) = bad_boolean k
  complaint (asks_list k r) (json (items eil)) = bad_item k (leading_texts eil)
  complaint r s = wrong_type (key_of r)

  abbrev pub expected : Request → Option Slot → Option ConfigErr
  expected r none = if is_needed r then some (missing (key_of r)) else none
  expected r (some s) = if accepts r s then none else some (complaint r s)

  -- One for each call, in the order of the calls.
  abbrev pub expected_all : List Request → Obj → List ConfigErr
  expected_all [] jc = []
  expected_all (r ∷ rs) jc = as_list (expected r (get jc (key_of r))) ++ expected_all rs jc

pub strings_from_lem :
    (k : List ℕ) (i : ℕ) (sl : List (List ℕ)) (eil : Items)
    → (strings_from k i sl eil).err
      ≡ (if all_texts eil then none else some (bad_item k (i + leading_texts eil)))
unfolding strings_from
strings_from_lem k i sl no_items = refl
strings_from_lem k i sl (item null rest) = ap (λ n. some (bad_item k n)) (omega arith)
strings_from_lem k i sl (item (boolean b) rest) = ap (λ n. some (bad_item k n)) (omega arith)
strings_from_lem k i sl (item (number f) rest) = ap (λ n. some (bad_item k n)) (omega arith)
strings_from_lem k i sl (item (items l) rest) = ap (λ n. some (bad_item k n)) (omega arith)
strings_from_lem k i sl (item (object m) rest) = ap (λ n. some (bad_item k n)) (omega arith)
strings_from_lem k i sl (item (text s) rest) =
    let same : i + 1 + leading_texts rest ≡ i + suc (leading_texts rest) = omega arith in
    strings_from_lem k (i + 1) _ rest
    ∙ ap (λ n. if all_texts rest then none else some (bad_item k n)) same

-- Some accessor was asked for a key.
abbrev pub IsAsked : List Request → List ℕ → Type 0
IsAsked [] k = ⊥
IsAsked (r ∷ rs) k = (key_of r ≡ k) ⊎ IsAsked rs k

abbrev pub StartsUnderscore : List ℕ → Type 0
StartsUnderscore k = (rest : List ℕ) × (k ≡ 95 ∷ rest)

-- The keys of an object that were not asked for and do not begin with an underscore, in order.
pub data Unasked (rs : List Request) : Obj → List (List ℕ) → Type 0 where
  done : Unasked rs [] []
  passed :
      {k : List ℕ} {s : Slot} {jc : Obj} {us : List (List ℕ)}
      → IsAsked rs k ⊎ StartsUnderscore k
      → Unasked rs jc us
      → Unasked rs (record { key = k; slot = s } ∷ jc) us
  listed :
      {k : List ℕ} {s : Slot} {jc : Obj} {us : List (List ℕ)}
      → ¬ IsAsked rs k
      → ¬ StartsUnderscore k
      → Unasked rs jc us
      → Unasked rs (record { key = k; slot = s } ∷ jc) (k ∷ us)

same_key→≡ : (a b : List ℕ) → same_key a b ≡ true → a ≡ b
same_key→≡ [] [] e = refl
same_key→≡ [] (b ∷ bs) e = absurd (ground (arith, e))
same_key→≡ (a ∷ cs) [] e = absurd (ground (arith, e))
same_key→≡ (a ∷ cs) (b ∷ bs) e = elim (Bool-cases (a == b)) [
  | inl same ↦
      let here : a ≡ b = ground (arith, same) in
      ap (λ t. t ∷ cs) here ∙ ap (λ t. b ∷ t) (same_key→≡ cs bs (ground (arith, same, e)))
  | inr other ↦ absurd (ground (arith, other, e))
]

same_key_refl : (a : List ℕ) → same_key a a ≡ true
same_key_refl [] = refl
same_key_refl (a ∷ cs) = let same : (a == a) ≡ true = ground arith in rw same (same_key_refl cs)

contains→IsAsked :
    (rs : List Request) (k : List ℕ) → contains (map key_of rs) k ≡ true → IsAsked rs k
contains→IsAsked [] k e = absurd (ground (arith, e))
contains→IsAsked (r ∷ rs) k e = elim (Bool-cases (same_key (key_of r) k)) [
  | inl same ↦ inl (same_key→≡ (key_of r) k same)
  | inr other ↦ inr (contains→IsAsked rs k (ground (arith, other, e)))
]

IsAsked→contains :
    (rs : List Request) (k : List ℕ) → IsAsked rs k → contains (map key_of rs) k ≡ true
IsAsked→contains [] k h = absurd h
IsAsked→contains (r ∷ rs) k (inl e) =
    let same : same_key (key_of r) k ≡ true =
      ap (same_key (key_of r)) (sym e) ∙ same_key_refl (key_of r) in
    rw same refl
IsAsked→contains (r ∷ rs) k (inr h) =
    let later = IsAsked→contains rs k h in
    elim (Bool-cases (same_key (key_of r) k)) [
      | inl same ↦ rw same refl
      | inr other ↦ rw (other, later) refl
    ]

has_underscore→StartsUnderscore : (k : List ℕ) → has_underscore k ≡ true → StartsUnderscore k
has_underscore→StartsUnderscore [] e = absurd (ground (arith, e))
has_underscore→StartsUnderscore (b ∷ k) e =
    let first : b ≡ 95 = ground (arith, e) in (k, ap (λ c. c ∷ k) first)

-- UnknownKeys lists the keys that were not asked for.
pub unknown_from-Unasked :
    (rs : List Request) (jc : Obj) → Unasked rs jc (unknown_from (map key_of rs) jc)
unknown_from-Unasked rs [] = done
unknown_from-Unasked rs (e ∷ jc) =
    let later = unknown_from-Unasked rs jc in
    elim (Bool-cases (contains (map key_of rs) (e.key))) [
      | inl asked ↦ rw asked (passed (inl (contains→IsAsked rs (e.key) asked)) later)
      | inr other ↦ elim (Bool-cases (has_underscore (e.key))) [
        | inl under ↦
            rw (other, under) (passed (inr (has_underscore→StartsUnderscore (e.key) under)) later)
        | inr plain ↦
            rw (other, plain)
              (listed (λ h. let t = IsAsked→contains rs (e.key) h in ground (arith, t, other))
                (λ h. let t = ap has_underscore h.1 in ground (arith, t, plain)) later)
      ]
    ]
