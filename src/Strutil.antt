-- ===== src/Strutil.antt =====
-- `ParseUintBytes` of strutil/strconv.go.
pub mod Value
pub mod Split
pub mod Plausible
mod Runs
use go.Common.{
  ℕ, zero, suc, ◌+◌, ◌-◌, ◌*◌, ◌/◌, ◌%◌, ◌^◌, Bool, Option, none, some, List, [], ◌∷◌, ◌==◌, ltb,
  leb, ◌&&◌, ◌||◌, if◌then◌else◌,
}

pub data ParseErr : Type 0 where
  syntax range invalid_base : ParseErr

abbrev pub between : ℕ → ℕ → ℕ → Bool
between lo hi d = leb lo d && leb d hi

-- The value of a digit: 0 to 9, and letters of either case from 10 on.
unfoldable pub digit_value : ℕ → Option ℕ
digit_value d =
    if between 48 57 d
    then some (d - 48)
    else if between 97 122 d
    then some (d - 97 + 10)
    else if between 65 90 d
    then some (d - 65 + 10)
    else none

-- `cutoff64`
unfoldable pub cutoff64 : ℕ → ℕ
cutoff64 base = if ltb base 2 then 0 else (2 ^ 64 - 1) / base + 1

-- `1<<uint(bitSize) - 1`, in 64 bits.
unfoldable pub max_value : ℕ → ℕ
max_value bit_size = (2 ^ bit_size % 2 ^ 64 + 2 ^ 64 - 1) % 2 ^ 64

abbrev pub Parsed : Type 0
Parsed = ℕ × Option ParseErr

-- One round of the loop with the digit's value: the error, or what follows.
unfoldable pub push_digit : ℕ → ℕ → ℕ → ℕ → (ℕ → Parsed) → Parsed
unfolding cutoff64
push_digit base max_val n v next =
    let m = n * base % 2 ^ 64 in
    let n1 = (m + v) % 2 ^ 64 in
    if leb base v
    then (0, some syntax)
    else if leb (cutoff64 base) n
    then (2 ^ 64 - 1, some range)
    else if ltb n1 m || ltb max_val n1
    then (2 ^ 64 - 1, some range)
    else next n1

unfoldable pub parse_digits : ℕ → ℕ → ℕ → List ℕ → Parsed
unfolding digit_value push_digit
parse_digits base max_val n [] = (n, none)
parse_digits base max_val n (d ∷ ds) = elim (digit_value d) [
  | none ↦ (0, some syntax)
  | some v ↦ push_digit base max_val n v (λ n1. parse_digits base max_val n1 ds)
]

-- The base 16 behind its prefix, of which at least one digit must follow.
unfoldable pub hex_digits : ℕ → List ℕ → Parsed
unfolding parse_digits
hex_digits max_val [] = (0, some syntax)
hex_digits max_val (d ∷ ds) = parse_digits 16 max_val 0 (d ∷ ds)

-- The base 0: what follows a first "0" tells the base.
unfoldable pub after_zero : ℕ → List ℕ → Parsed
unfolding hex_digits
after_zero max_val [] = parse_digits 8 max_val 0 (48 ∷ [])
after_zero max_val (x ∷ ds) =
    if x == 120 || x == 88 then hex_digits max_val ds else parse_digits 8 max_val 0 (48 ∷ x ∷ ds)

unfoldable pub by_prefix : ℕ → List ℕ → Parsed
unfolding after_zero
by_prefix max_val [] = (0, some syntax)
by_prefix max_val (d ∷ ds) =
    if d == 48 then after_zero max_val ds else parse_digits 10 max_val 0 (d ∷ ds)

-- `int_size` is `strconv.IntSize`.
unfoldable pub parse_uint_bytes : ℕ → List ℕ → ℕ → ℕ → Parsed
unfolding parse_digits by_prefix max_value
parse_uint_bytes int_size [] base bit_size = (0, some syntax)
parse_uint_bytes int_size (d ∷ ds) base bit_size =
    let max_val = max_value (if bit_size == 0 then int_size else bit_size) in
    if leb 2 base && leb base 36
    then parse_digits base max_val 0 (d ∷ ds)
    else if base == 0
    then by_prefix max_val (d ∷ ds)
    else (0, some invalid_base)
