-- ===== src/Common/Bits.antt =====
-- Masks as arithmetic: facts about `bit_and` and `bit_or` at variables, for masks of low ones.
use Prim.Native.Nat.{
  ℕ, zero, suc, ◌+◌, ◌-◌, ◌*◌, ◌/◌, ◌%◌, ◌^◌, ◌≤◌, ◌<◌, min, max, bit_and, bit_or, digits,
  bit_and-bitwise, bit_or-bitwise,
}
use mathlib.Core.Path.{◌≡◌, refl, sym, ap, ◌∙◌}
use native.Mathlib.Omega.{arith}
use native.Mathlib.Nat.{pow-suc, mul-add-mod_self_right, mod-eq_of_lt, mod-lt, div-add-mod}

-- The recursion on binary digits that a native operation stands for: the fuel is dropped.
module _ (rest : ℕ → ℕ) (digit : ℕ → ℕ → ℕ) where
  digits-zero : (n y : ℕ) → digits rest digit n 0 y ≡ rest y
  digits-zero zero y = refl
  digits-zero (suc n) y = refl

  same_digits : (x y n m : ℕ) → x ≤ n → x ≤ m → digits rest digit n x y ≡ digits rest digit m x y
  same_digits zero y n m h l = digits-zero n y ∙ sym (digits-zero m y)
  same_digits (suc x) y zero m h l = absurd (omega arith)
  same_digits (suc x) y (suc n) zero h l = absurd (omega arith)
  same_digits (suc x) y (suc n) (suc m) h l =
      let halves = same_digits (suc x / 2) (y / 2) n m (omega arith) (omega arith) in
      omega (arith, halves)

  lowest_digit :
      (op : ℕ → ℕ → ℕ)
      → ((x y : ℕ) → op x y ≡ digits rest digit x x y)
      → ((y : ℕ) → rest y ≡ rest (y / 2) * 2 + digit 0 (y % 2))
      → (x y : ℕ) → op x y ≡ op (x / 2) (y / 2) * 2 + digit (x % 2) (y % 2)
  lowest_digit op means low zero y = omega (arith, means 0 y, means 0 (y / 2), low y)
  lowest_digit op means low (suc x) y =
      let half = same_digits (suc x / 2) (y / 2) x (suc x / 2) (omega arith) (omega arith) in
      omega (arith, means (suc x) y, means (suc x / 2) (y / 2), half)

bit_and_step : (a b : ℕ) → bit_and a b ≡ bit_and (a / 2) (b / 2) * 2 + min (a % 2) (b % 2)
bit_and_step = lowest_digit (λ _. 0) min bit_and bit_and-bitwise (λ y. omega arith)

bit_or_step : (a b : ℕ) → bit_or a b ≡ bit_or (a / 2) (b / 2) * 2 + max (a % 2) (b % 2)
bit_or_step = lowest_digit (λ y. y) max bit_or bit_or-bitwise (λ y. omega arith)

-- Both operations with 0 on the right, for numbers below a bound.
right_zero : (n a : ℕ) → a < n → (bit_and a 0 ≡ 0) × (bit_or a 0 ≡ a)
right_zero zero a h = absurd (omega arith)
right_zero (suc n) zero h = (bit_and-bitwise 0 0, bit_or-bitwise 0 0)
right_zero (suc n) (suc a) h =
    let (none_left, all_left) = right_zero n (suc a / 2) (omega arith) in
    (
      omega (arith, bit_and_step (suc a) 0, none_left),
      omega (arith, bit_or_step (suc a) 0, all_left),
    )

pub pow-pos : (k : ℕ) → 0 < 2 ^ k
pow-pos zero = omega arith
pow-pos (suc k) = omega (arith, pow-suc 2 k, pow-pos k)

-- The remainder by an even number, from the lowest bit and the rest.
pub mod-double : (a p : ℕ) → 0 < p → a % (p * 2) ≡ a / 2 % p * 2 + a % 2
mod-double a p h =
    let q = a / 2 / p in
    let r = a / 2 % p * 2 + a % 2 in
    ap (λ n. n % (p * 2)) {x = a} {y = q * (p * 2) + r}
      (omega (arith, ap (λ (t : ℕ). 2 * t) (div-add-mod (a / 2) p)))
    ∙ mul-add-mod_self_right q (p * 2) r
    ∙ mod-eq_of_lt (omega (arith, mod-lt (a / 2) h))

-- A mask of `k` low ones keeps the remainder by `2 ^ k`.
pub bit_and-mask : (k a : ℕ) → bit_and a (2 ^ k - 1) ≡ a % 2 ^ k
bit_and-mask zero a = (right_zero (suc a) a (omega arith)).0 ∙ omega arith
bit_and-mask (suc k) a =
    let half : (2 ^ k * 2 - 1) / 2 ≡ 2 ^ k - 1 = omega (arith, pow-pos k) in
    let odd : (2 ^ k * 2 - 1) % 2 ≡ 1 = omega (arith, pow-pos k) in
    rw
      (
        pow-suc 2 k,
        mod-double a (2 ^ k) (pow-pos k),
        bit_and_step,
        ← bit_and-mask k (a / 2),
        half,
        odd,
      )
      (omega arith)

-- A shifted number joined with one that fits below the shift is their sum.
pub bit_or-shifted : (k a b : ℕ) → b < 2 ^ k → bit_or (a * 2 ^ k) b ≡ a * 2 ^ k + b
bit_or-shifted zero a zero h = (right_zero (suc (a * 1)) (a * 1) (omega arith)).1 ∙ omega arith
bit_or-shifted zero a (suc b) h = absurd (omega arith)
bit_or-shifted (suc k) a b h =
    let half : a * (2 ^ k * 2) / 2 ≡ a * 2 ^ k = omega arith in
    let even : a * (2 ^ k * 2) % 2 ≡ 0 = omega arith in
    rw
      (
        pow-suc 2 k,
        bit_or_step,
        half,
        even,
        bit_or-shifted k a (b / 2) (omega (arith, pow-suc 2 k)),
      )
      (omega arith)

pub pow-le-pow : (n k : ℕ) → n ≤ k → 2 ^ n ≤ 2 ^ k
pow-le-pow zero k h = pow-pos k
pow-le-pow (suc n) zero h = absurd (omega arith)
pow-le-pow (suc n) (suc k) h = omega (arith, pow-suc 2 n, pow-suc 2 k, pow-le-pow n k (omega arith))

-- The complement of a number within `k` bits, read in its low `n` bits.
pub complement-mod :
    (n k a : ℕ) → n ≤ k → a < 2 ^ k → (2 ^ k - 1 - a) % 2 ^ n ≡ 2 ^ n - 1 - a % 2 ^ n
complement-mod zero k a h l = omega arith
complement-mod (suc n) zero a h l = absurd (omega arith)
complement-mod (suc n) (suc k) a h l =
    let ha : a / 2 < 2 ^ k = omega (arith, pow-suc 2 k) in
    let half : (2 ^ k * 2 - 1 - a) / 2 ≡ 2 ^ k - 1 - a / 2 = omega (arith, pow-suc 2 k) in
    let bit : (2 ^ k * 2 - 1 - a) % 2 ≡ 1 - a % 2 = omega (arith, pow-suc 2 k) in
    rw
      (
        pow-suc 2 n,
        pow-suc 2 k,
        mod-double (2 ^ k * 2 - 1 - a) (2 ^ n) (pow-pos n),
        half,
        bit,
        mod-double a (2 ^ n) (pow-pos n),
        complement-mod n k (a / 2) (omega arith) ha,
      )
      (omega (arith, mod-lt (a / 2) (pow-pos n)))
