-- ===== src/Strutil/Runs.antt =====
-- Concrete runs of strutil, and its theorems at concrete inputs.
use go.Common.{inl, inr, Option, ℕ, arith, List, ◌-◌, ◌^◌, ◌≡◌, refl, none, some, [], ◌∷◌}
use go.Strutil.{range, parse_uint_bytes, digit_value, max_value}
use go.Strutil.Split.{append_split_n, parts}
use go.Strutil.Value.{parse_uint_bytes_lem}

-- "0x1f" tells its base.
prefixed : parse_uint_bytes 64 (48 ∷ 120 ∷ 49 ∷ 102 ∷ []) 0 0 ≡ (31, none)
unfolding parse_uint_bytes
prefixed = refl

too_large : parse_uint_bytes 64 (50 ∷ 53 ∷ 54 ∷ []) 10 8 ≡ (2 ^ 64 - 1, some range)
unfolding parse_uint_bytes
too_large = refl

-- "7F"
parse_uint_bytes_lem_example : parse_uint_bytes 64 (55 ∷ 70 ∷ []) 16 8 ≡ (127, none)
unfolding digit_value max_value
parse_uint_bytes_lem_example =
    parse_uint_bytes_lem 64 16 8 55 (70 ∷ [])
      (
        record { value = 7; code = inl (omega arith, refl); small = omega arith },
        (record { value = 15; code = inr (omega arith, inr refl); small = omega arith }, tt),
      )
      (omega arith) (omega arith) (omega arith) (omega arith)

-- "a--b--c" at most in two.
abbrev dashes : List ℕ
dashes = 97 ∷ 45 ∷ 45 ∷ 98 ∷ 45 ∷ 45 ∷ 99 ∷ []

dashes_run :
    append_split_n [] dashes (45 ∷ 45 ∷ []) (some 2)
    ≡ parts ((97 ∷ []) ∷ (98 ∷ 45 ∷ 45 ∷ 99 ∷ []) ∷ [])
unfolding append_split_n
dashes_run = refl

abbrev two : Option ℕ
two = some 2
