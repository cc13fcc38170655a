-- ===== src/Rollsum.antt =====
-- rollsum/rollsum.go: the rolling checksum that finds the points at which a stream is split.
-- A `uint32` is its value below 2 ^ 32, and every operation on it wraps.
mod Window
mod Split
mod Runs
use Prim.Native.Nat.{bit_and, bit_or}
use go.Common.{
  ℕ, zero, suc, ◌+◌, ◌-◌, ◌*◌, ◌/◌, ◌%◌, ◌^◌, Bool, List, [], ◌∷◌, ◌==◌, if◌then◌else◌, get_or, set,
  replicate,
}

-- `windowSize`, `charOffset`, `blobBits` and `blobSize`.
abbrev pub window_size : ℕ
window_size = 64

abbrev pub char_offset : ℕ
char_offset = 31

abbrev pub blob_bits : ℕ
blob_bits = 13

abbrev pub blob_size : ℕ
blob_size = 2 ^ 13

abbrev pub u32 : ℕ
u32 = 2 ^ 32

-- `^x` on a `uint32`.
abbrev pub not32 : ℕ → ℕ
not32 x = u32 - 1 - x

pub record RollSum : Type 0 where
  pub s1 : ℕ
  pub s2 : ℕ
  pub window : List ℕ
  pub wofs : ℕ

pub new : RollSum
new = record {
  s1 = window_size * char_offset;
  s2 = window_size * (window_size - 1) * char_offset;
  window = replicate window_size 0;
  wofs = 0;
}

-- Subtraction of `uint32` values: the modulus is added first, since `-` on ℕ stops at 0.
pub add : RollSum → ℕ → ℕ → RollSum
add rs dropped added =
    let s1' = ((rs.s1 + added) % u32 + u32 - dropped) % u32 in
    let out = window_size * ((dropped + char_offset) % u32) % u32 in
    record rs { s1 = s1'; s2 = (rs.s2 + (s1' + u32 - out) % u32) % u32 }

-- `Roll`: the byte at the write offset leaves the window and `ch` takes its place.
pub roll : RollSum → ℕ → RollSum
unfolding add
roll rs ch =
    let rs' = add rs (get_or rs.window rs.wofs 0) ch in
    record rs' { window = set rs.window rs.wofs ch; wofs = bit_and (rs.wofs + 1) (window_size - 1) }

-- `^0` is the `int` -1, whose low 13 bits are ones.
pub on_split : RollSum → Bool
on_split rs = bit_and rs.s2 (blob_size - 1) == bit_and (not32 0) (blob_size - 1)

-- `uint32(1) << n` is 0 from `n = 32` on.
pub on_split_with_bits : RollSum → ℕ → Bool
on_split_with_bits rs n =
    let mask = (2 ^ n % u32 + u32 - 1) % u32 in bit_and rs.s2 mask == bit_and (not32 0) mask

pub digest : RollSum → ℕ
digest rs = bit_or (rs.s1 * 2 ^ 16 % u32) (bit_and rs.s2 0xffff)

-- `bits.TrailingZeros32`: the position of the lowest set bit, 32 if there is none.
pub trailing_zeros : ℕ → ℕ → ℕ
trailing_zeros zero x = 0
trailing_zeros (suc w) x = let rest = trailing_zeros w (x / 2) in if x % 2 == 1 then 0 else rest + 1

pub bits : RollSum → ℕ
bits rs = blob_bits + trailing_zeros 32 (not32 (digest rs / 2 ^ (blob_bits + 1)))

-- A caller's loop over a byte slice.
pub roll_all : RollSum → List ℕ → RollSum
roll_all rs [] = rs
roll_all rs (ch ∷ chs) = roll_all (roll rs ch) chs
