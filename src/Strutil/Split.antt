-- ===== src/Strutil/Split.antt =====
-- `AppendSplitN` of strutil/strutil.go.
pub mod Cuts
use go.Common.{
  ℕ, zero, suc, ◌+◌, ◌-◌, ◌≤◌, ◌<◌, ◌≡◌, ◌≢◌, refl, sym, ap, ◌∙◌, arith, Bool, true, false, ◌&&◌,
  Option, none, some, List, [], ◌∷◌, ◌++◌, ◌==◌, ltb, leb, length, take, drop, Bool-cases, inl, inr,
  append-nil, append_assoc, length-append, take-append-drop, drop-drop,
}

-- Whether two strings are equal.
unfoldable pub same_string : List ℕ → List ℕ → Bool
same_string [] [] = true
same_string (a ∷ cs) (b ∷ bs) = (a == b) && same_string cs bs
same_string _ _ = false

-- Whether `sep` stands at `i`. The test of the first byte before that of all changes nothing.
unfoldable pub sep_at : List ℕ → List ℕ → ℕ → Bool
unfolding same_string
sep_at s sep i = same_string (take (length sep) (drop i s)) sep

-- `strings.Count` of a separator that is not empty, from `i` on. Each round goes on a byte at least.
unfoldable pub count_from : ℕ → List ℕ → List ℕ → ℕ → ℕ
unfolding sep_at
count_from zero s sep i = 0
count_from (suc fuel) s sep i = elim (leb (i + length sep) (length s)) [
  | false ↦ 0
  | true ↦ elim (sep_at s sep i) [
    | true ↦ suc (count_from fuel s sep (i + length sep))
    | false ↦ count_from fuel s sep (suc i)
  ]
]

-- The loop of `genSplit` and the remainder behind it. Each round goes on a byte at least.
unfoldable pub split_loop : ℕ → List (List ℕ) → List ℕ → List ℕ → ℕ → ℕ → ℕ → ℕ → ℕ → List (List ℕ)
unfolding sep_at
split_loop zero dst s sep sep_save n i start na = dst ++ (drop start s ∷ [])
split_loop (suc fuel) dst s sep sep_save n i start na =
    elim (leb (i + length sep) (length s) && ltb (na + 1) n) [
      | false ↦ dst ++ (drop start s ∷ [])
      | true ↦ elim (sep_at s sep i) [
        | true ↦
            split_loop fuel (dst ++ (take (i + sep_save - start) (drop start s) ∷ [])) s sep
              sep_save n (i + length sep) (i + length sep) (na + 1)
        | false ↦ split_loop fuel dst s sep sep_save n (suc i) start na
      ]
    ]

-- `n`: none stands for any negative number.
unfoldable pub limit_of : Option ℕ → List ℕ → List ℕ → ℕ
unfolding count_from
limit_of none s sep = count_from (suc (length s)) s sep 0 + 1
limit_of (some n) s sep = n

pub data Split : Type 0 where
  panics : Split
  parts : List (List ℕ) → Split

unfoldable pub gen_split : List (List ℕ) → List ℕ → List ℕ → ℕ → Option ℕ → Split
unfolding split_loop limit_of
gen_split dst s sep sep_save (some zero) = parts []
gen_split dst s [] sep_save n = panics
gen_split dst s (c ∷ sep) sep_save n =
    parts (split_loop (suc (length s)) dst s (c ∷ sep) sep_save (limit_of n s (c ∷ sep)) 0 0 0)

unfoldable pub append_split_n : List (List ℕ) → List ℕ → List ℕ → Option ℕ → Split
unfolding gen_split
append_split_n dst s sep n = gen_split dst s sep 0 n

pub same_string→≡ : (a b : List ℕ) → same_string a b ≡ true → a ≡ b
unfolding same_string
same_string→≡ [] [] e = refl
same_string→≡ [] (b ∷ bs) e = absurd (ground (arith, e))
same_string→≡ (a ∷ cs) [] e = absurd (ground (arith, e))
same_string→≡ (a ∷ cs) (b ∷ bs) e = elim (Bool-cases (a == b)) [
  | inl same ↦
      let here : a ≡ b = ground (arith, same) in
      ap (λ t. t ∷ cs) here ∙ ap (λ t. b ∷ t) (same_string→≡ cs bs (ground (arith, same, e)))
  | inr other ↦ absurd (ground (arith, other, e))
]

-- What stands from the start of a piece on, cut at a separator.
pub piece :
    (s sep : List ℕ) (i start : ℕ)
    → start ≤ i
    → sep_at s sep i ≡ true
    → take (i + 0 - start) (drop start s) ++ sep ++ drop (i + length sep) s ≡ drop start s
unfolding sep_at
piece s sep i start l e =
    let k = i + 0 - start in
    let d = drop start s in
    let here : drop k d ≡ drop i s = drop-drop k start s ∙ ap (λ j. drop j s) (omega (arith, l)) in
    let sep_there : take (length sep) (drop i s) ≡ sep =
      same_string→≡ (take (length sep) (drop i s)) sep e in
    let rest : drop (i + length sep) s ≡ drop (length sep) (drop i s) =
      ap (λ j. drop j s) (omega arith) ∙ sym (drop-drop (length sep) i s) in
    append_assoc (take k d) sep (drop (i + length sep) s)
    ∙ ap (λ t. take k d ++ t)
        (ap (λ t. t ++ drop (i + length sep) s) (sym sep_there)
          ∙ ap (λ t. take (length sep) (drop i s) ++ t) rest
          ∙ take-append-drop (length sep) (drop i s)
          ∙ sym here)
    ∙ take-append-drop k d

pub limit_of-positive : (n : Option ℕ) (s sep : List ℕ) → n ≢ some 0 → 0 < limit_of n s sep
unfolding limit_of
limit_of-positive none s sep h = omega arith
limit_of-positive (some zero) s sep h = absurd (h refl)
limit_of-positive (some (suc n)) s sep h = omega arith

pub gen_split-runs :
    (dst : List (List ℕ)) (s sep : List ℕ) (c : ℕ) (n : Option ℕ)
    → n ≢ some 0
    → append_split_n dst s (c ∷ sep) n
      ≡ parts (split_loop (suc (length s)) dst s (c ∷ sep) 0 (limit_of n s (c ∷ sep)) 0 0 0)
unfolding append_split_n
gen_split-runs dst s sep c none h = refl
gen_split-runs dst s sep c (some zero) h = absurd (h refl)
gen_split-runs dst s sep c (some (suc n)) h = refl
