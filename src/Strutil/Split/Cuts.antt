-- ===== src/Strutil/Split/Cuts.antt =====
-- `AppendSplitN` of strutil/strutil.go against the cuts at the first places of the separator.
use go.Common.{ℕ, suc, ◌≤◌, ◌<◌, ◌≡◌, List, [], ◌∷◌, ◌++◌, length, drop}

-- The separator stands at `i`.
abbrev pub Occurs : List ℕ → List ℕ → ℕ → Type 0
Occurs sep s i = (rest : List ℕ) × (drop i s ≡ sep ++ rest)

-- The parts of a string: its cuts at the first place of the separator, again and again behind it, until
-- it stands nowhere or the last part that the limit leaves is reached.
pub data IsSplit (sep : List ℕ) : ℕ → List ℕ → List (List ℕ) → Type 0 where
  last : {s : List ℕ} → IsSplit sep 1 s (s ∷ [])
  nowhere : {n : ℕ} {s : List ℕ} → ((j : ℕ) → ¬ Occurs sep s j) → IsSplit sep (suc n) s (s ∷ [])
  cut :
      {n : ℕ} {s : List ℕ} {ps : List (List ℕ)} (x rest : List ℕ)
      → s ≡ x ++ sep ++ rest
      → ((j : ℕ) → j < length x → ¬ Occurs sep s j)
      → IsSplit sep (suc n) rest ps
      → IsSplit sep (suc (suc n)) s (x ∷ ps)

-- The separator stands nowhere from `start` on and before `i`.
abbrev IsClear : List ℕ → List ℕ → ℕ → ℕ → Type 0
IsClear sep s start i = (j : ℕ) → start ≤ j → j < i → ¬ Occurs sep s j

-- What the loop appends.
record Appends (sep : List ℕ) (limit : ℕ) (s : List ℕ) (dst res : List (List ℕ)) : Type 0 where
  new : List (List ℕ)
  all : res ≡ dst ++ new
  is_split : IsSplit sep limit s new
