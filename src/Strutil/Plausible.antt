-- ===== src/Strutil/Plausible.antt =====
-- `IsPlausibleJSON` of strutil/strutil.go.
use go.Common.{
  ℕ, zero, suc, ◌≡◌, Bool, true, false, ◌&&◌, ◌||◌, List, [], ◌∷◌, ◌++◌, ◌==◌, if◌then◌else◌, All,
  length,
}

unfoldable pub is_ascii_white : ℕ → Bool
is_ascii_white b = (b == 32) || ((b == 10) || ((b == 13) || (b == 9)))

unfoldable pub starts_with_open_brace : List ℕ → Bool
unfolding is_ascii_white
starts_with_open_brace [] = false
starts_with_open_brace (b ∷ s) =
    let later = starts_with_open_brace s in
    if b == 123 then true else if is_ascii_white b then later else false

-- The byte at an index of the string.
unfoldable pub nth : ℕ → List ℕ → ℕ
nth i [] = 0
nth zero (b ∷ s) = b
nth (suc i) (b ∷ s) = nth i s

-- The loop of `endsWithCloseBrace`, where the string has been cut to its first `n` bytes.
unfoldable pub ends_at : ℕ → List ℕ → Bool
unfolding nth is_ascii_white
ends_at zero s = false
ends_at (suc last) s =
    let before = ends_at last s in
    if nth last s == 125 then true else if is_ascii_white (nth last s) then before else false

unfoldable pub ends_with_close_brace : List ℕ → Bool
unfolding ends_at
ends_with_close_brace s = ends_at (length s) s

unfoldable pub is_plausible_json : List ℕ → Bool
unfolding starts_with_open_brace ends_with_close_brace
is_plausible_json s = starts_with_open_brace s && ends_with_close_brace s

abbrev pub White : List ℕ → Type 0
White = All (λ b. is_ascii_white b ≡ true)

-- A string is white space and then a brace and anything, and anything and then a brace and white space.
pub record Opens (s : List ℕ) : Type 0 where
  pub white : List ℕ
  pub rest : List ℕ
  pub is_white : White white
  pub split : s ≡ white ++ (123 ∷ rest)

pub record Closes (s : List ℕ) : Type 0 where
  pub front : List ℕ
  pub white : List ℕ
  pub is_white : White white
  pub split : s ≡ front ++ (125 ∷ white)
