-- ===== src/Strutil/Value.antt =====
-- `ParseUintBytes` of strutil/strconv.go against the number that the digits mean.
use go.Common.{
  ℕ, ◌+◌, ◌-◌, ◌*◌, ◌/◌, ◌%◌, ◌^◌, ◌≤◌, ◌<◌, ◌≡◌, ◌↔◌, refl, ◌∙◌, arith, true, false, none, some,
  List, [], ◌∷◌, ◌==◌, ltb, leb, ◌&&◌, ◌||◌, if◌then◌else◌, All, Bool-cases, inl, inr, ◌⊎◌,
}
use go.Common.Bits.{pow-pos, pow-le-pow}
use native.Mathlib.Nat.{mul-le-mul_left, div-lt_iff_lt-mul, mod-eq_of_lt}
use go.Strutil.{
  range, digit_value, cutoff64, max_value, Parsed, push_digit, parse_digits, parse_uint_bytes,
}

-- A digit of the base, with its value: "0" to "9", or a letter from "a" or "A" on for 10 and more.
pub record IsDigit (base d : ℕ) : Type 0 where
  pub value : ℕ
  pub code :
      ((value < 10) × (d ≡ 48 + value)) ⊎ ((10 ≤ value) × ((d ≡ 87 + value) ⊎ (d ≡ 55 + value)))
  pub small : value < base

digit_value-IsDigit : (base d : ℕ) (h : IsDigit base d) → base ≤ 36 → digit_value d ≡ some h.value
unfolding digit_value
digit_value-IsDigit base d h b = go h.value h.code (omega (arith, b, h.small))
  where
    go :
        (v : ℕ)
        → ((v < 10) × (d ≡ 48 + v)) ⊎ ((10 ≤ v) × ((d ≡ 87 + v) ⊎ (d ≡ 55 + v)))
        → v < 36
        → digit_value d ≡ some v
    go v (inl (l, e)) t = ground (arith, l, e)
    go v (inr (l, inl e)) t = ground (arith, l, e, t)
    go v (inr (l, inr e)) t = ground (arith, l, e, t)

-- The number that digits mean, behind a number `n`.
abbrev pub number : (base n : ℕ) (ds : List ℕ) → All (IsDigit base) ds → ℕ
number base n [] h = n
number base n (d ∷ ds) (h, hs) = number base (n * base + h.value) ds hs

number-ge :
    (base n : ℕ) (ds : List ℕ) (h : All (IsDigit base) ds) → 0 < base → n ≤ number base n ds h
number-ge base n [] h b = omega arith
number-ge base n (d ∷ ds) (h, hs) b =
    let rest = number-ge base (n * base + h.value) ds hs b in
    let grows : n * 1 ≤ n * base = mul-le-mul_left n b in omega (arith, rest, grows)

-- `n * base` does not fit in 64 bits exactly from the cutoff on.
cutoff_iff : (base n : ℕ) → 2 ≤ base → (leb (cutoff64 base) n) ≡ leb (2 ^ 64) (n * base)
unfolding cutoff64
cutoff_iff base n h =
    let two : ltb base 2 ≡ false = ground (arith, h) in
    let bound : ((2 ^ 64 - 1) / base < n) ↔ (2 ^ 64 - 1 < n * base) =
      div-lt_iff_lt-mul (omega arith) in
    rw two (ground (arith, bound.0, bound.1))

abbrev pub overflow : Parsed
overflow = (2 ^ 64 - 1, some range)

push_digit-fits :
    (base max_val n v : ℕ) (next : ℕ → Parsed)
    → 2 ≤ base
    → v < base
    → max_val < 2 ^ 64
    → n * base + v ≤ max_val
    → push_digit base max_val n v next ≡ next (n * base + v)
unfolding push_digit
push_digit-fits base max_val n v next b d m f =
    let digit : leb base v ≡ false = ground (arith, d) in
    let room : leb (2 ^ 64) (n * base) ≡ false = ground (arith, f, m) in
    let product : n * base % 2 ^ 64 ≡ n * base = mod-eq_of_lt (omega (arith, f, m)) in
    let sum : (n * base + v) % 2 ^ 64 ≡ n * base + v = mod-eq_of_lt (omega (arith, f, m)) in
    let kept : (ltb (n * base + v) (n * base) || ltb max_val (n * base + v)) ≡ false =
      ground (arith, f) in
    rw (push_digit, digit, cutoff_iff base n b, room, product, sum, kept) refl

push_digit-over :
    (base max_val n v : ℕ) (next : ℕ → Parsed)
    → 2 ≤ base
    → v < base
    → base ≤ 36
    → max_val < 2 ^ 64
    → max_val < n * base + v
    → push_digit base max_val n v next ≡ overflow
unfolding push_digit
push_digit-over base max_val n v next b d t m f =
    let digit : leb base v ≡ false = ground (arith, d) in
    elim (Bool-cases (leb (2 ^ 64) (n * base))) [
      | inl full ↦ rw (push_digit, digit, cutoff_iff base n b, full) refl
      | inr room ↦
          let g : n * base < 2 ^ 64 = ground (arith, room) in
          let product : n * base % 2 ^ 64 ≡ n * base = mod-eq_of_lt g in
          let wrapped : (ltb ((n * base + v) % 2 ^ 64) (n * base)
                || ltb max_val ((n * base + v) % 2 ^ 64))
              ≡ true =
            wraps (n * base) v max_val g (omega arith) m f in
          rw (push_digit, digit, cutoff_iff base n b, room, product, wrapped) refl
    ]
  where
    wraps :
        (x y mv : ℕ)
        → x < 2 ^ 64
        → y < 2 ^ 64
        → mv < 2 ^ 64
        → mv < x + y
        → (ltb ((x + y) % 2 ^ 64) x || ltb mv ((x + y) % 2 ^ 64)) ≡ true
    wraps x y mv hx hy hm hs = ground arith

-- What the loop gives for digits of the base, from a number that fits.
pub parse_digits_lem :
    (base max_val n : ℕ) (ds : List ℕ) (h : All (IsDigit base) ds)
    → 2 ≤ base
    → base ≤ 36
    → max_val < 2 ^ 64
    → n ≤ max_val
    → parse_digits base max_val n ds
      ≡ (if leb (number base n ds h) max_val then (number base n ds h, none) else overflow)
unfolding parse_digits
parse_digits_lem base max_val n [] h b t m l = ground arith
parse_digits_lem base max_val n (d ∷ ds) (h, hs) b t m l =
    let next = λ (n1 : ℕ). parse_digits base max_val n1 ds in
    let ge = number-ge base (n * base + h.value) ds hs (omega arith) in
    elim (Bool-cases (leb (n * base + h.value) max_val)) [
      | inl fits ↦
          let g : n * base + h.value ≤ max_val = ground (arith, fits) in
          rw (parse_digits, digit_value-IsDigit base d h t)
            (push_digit-fits base max_val n h.value next b h.small m g
              ∙ parse_digits_lem base max_val (n * base + h.value) ds hs b t m g)
      | inr over ↦
          let g : max_val < n * base + h.value = ground (arith, over) in
          let large : leb (number base (n * base + h.value) ds hs) max_val ≡ false =
            ground (arith, ge, g) in
          rw (parse_digits, digit_value-IsDigit base d h t, large)
            (push_digit-over base max_val n h.value next b h.small t m g)
    ]

max_value_lem : (w : ℕ) → w ≤ 64 → max_value w ≡ 2 ^ w - 1
unfolding max_value
max_value_lem w h = omega (arith, pow-pos w, pow-le-pow w 64 h)

-- For digits of a base from 2 to 36, one at least, and a size of 1 to 64 bits, `ParseUintBytes` gives
-- the number that they mean, if that is below 2 to the power of the size, and otherwise the largest
-- `uint64` and `ErrRange`: no overflow of the 64-bit sum or product is missed.
pub parse_uint_bytes_lem :
    (int_size base bit_size d : ℕ) (ds : List ℕ) (h : All (IsDigit base) (d ∷ ds))
    → 2 ≤ base
    → base ≤ 36
    → 0 < bit_size
    → bit_size ≤ 64
    → parse_uint_bytes int_size (d ∷ ds) base bit_size ≡ (
        if ltb (number base 0 (d ∷ ds) h) (2 ^ bit_size)
        then (number base 0 (d ∷ ds) h, none)
        else (2 ^ 64 - 1, some range))
unfolding parse_uint_bytes
parse_uint_bytes_lem int_size base bit_size d ds h b t w l =
    let valid : (leb 2 base && leb base 36) ≡ true = ground (arith, b, t) in
    let sized : (bit_size == 0) ≡ false = ground (arith, w) in
    let most = 2 ^ bit_size - 1 in
    let low : most < 2 ^ 64 = below bit_size l in
    let all = parse_digits_lem base most 0 (d ∷ ds) h b t low (omega arith) in
    let same : leb (number base 0 (d ∷ ds) h) most ≡ ltb (number base 0 (d ∷ ds) h) (2 ^ bit_size) =
      at_most (number base 0 (d ∷ ds) h) (2 ^ bit_size) (pow-pos bit_size) in
    rw (parse_uint_bytes, sized, valid, max_value_lem bit_size l, ← same) all
  where
    below : (w : ℕ) → w ≤ 64 → 2 ^ w - 1 < 2 ^ 64
    below w h = omega (arith, pow-pos w, pow-le-pow w 64 h)

    at_most : (n p : ℕ) → 0 < p → leb n (p - 1) ≡ ltb n p
    at_most n p h = ground (arith, h)
