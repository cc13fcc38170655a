-- ===== src/Rollsum/Split.antt =====
-- What the digest and the split tests of rollsum/rollsum.go say of a stream.
use Prim.Native.Nat.{bit_and, bit_or}
use go.Common.{
  ℕ, zero, suc, ◌+◌, ◌-◌, ◌*◌, ◌/◌, ◌%◌, ◌^◌, ◌≤◌, ◌<◌, ◌≡◌, ◌↔◌, refl, sym, ap, ap₂, ◌∙◌, true,
  List, [], ◌∷◌, ◌++◌, ==_iff, append-nil, append_assoc, arith, length, drop, All, drop-drop,
  drop-append_le, drop-length_append,
}
use native.Mathlib.Nat.{pow-suc, mod-lt}
use go.Common.Bits.{bit_and-mask, bit_or-shifted, complement-mod, pow-pos, pow-le-pow, mod-double}
use go.Rollsum.{
  RollSum, blob_bits, u32, new, roll, roll_all, digest, on_split, on_split_with_bits, bits,
  trailing_zeros, not32,
}
use go.Rollsum.Window.{
  IsByte, IsValid, contents, contents-roll, roll-IsValid, new-IsValid, total, weighted, s2_base,
  length-contents,
}

pub roll_all-IsValid :
    {rs : RollSum} (chs : List ℕ) → IsValid rs → All IsByte chs → IsValid (roll_all rs chs)
unfolding roll_all
roll_all-IsValid [] v h = v
roll_all-IsValid {rs} (ch ∷ chs) v (hc, h) =
    roll_all-IsValid {rs = roll rs ch} chs (roll-IsValid ch v hc) h

roll_all-append :
    (rs : RollSum) (xs ys : List ℕ) → roll_all rs (xs ++ ys) ≡ roll_all (roll_all rs xs) ys
unfolding roll_all
roll_all-append rs [] ys = refl
roll_all-append rs (x ∷ xs) ys = roll_all-append (roll rs x) xs ys

-- The window holds the last bytes of the old window followed by the bytes rolled in.
contents-roll_all :
    {rs : RollSum} (chs : List ℕ)
    → IsValid rs
    → All IsByte chs
    → contents (roll_all rs chs) ≡ drop (length chs) (contents rs ++ chs)
unfolding roll_all
contents-roll_all [] v h = sym (append-nil _)
contents-roll_all {rs} (ch ∷ chs) v (hc, h) =
    contents-roll_all {rs = roll rs ch} chs (roll-IsValid ch v hc) h
    ∙ ap (λ t. drop (length chs) (t ++ chs)) (contents-roll ch v)
    ∙ ap (drop (length chs)) (append_assoc (drop 1 (contents rs)) (ch ∷ []) chs ∙ sym moved)
    ∙ drop-drop (length chs) 1 (contents rs ++ (ch ∷ chs))
    ∙ ap (λ n. drop n (contents rs ++ (ch ∷ chs))) {y = length (ch ∷ chs)} (omega arith)
  where
    moved : drop 1 (contents rs ++ (ch ∷ chs)) ≡ drop 1 (contents rs) ++ (ch ∷ chs)
    moved = drop-append_le 1 (contents rs) (ch ∷ chs) (omega (arith, length-contents v))

contents_full :
    {rs : RollSum} (chs : List ℕ)
    → IsValid rs
    → All IsByte chs
    → length chs ≡ 64
    → contents (roll_all rs chs) ≡ chs
contents_full {rs} chs v h l =
    contents-roll_all chs v h
    ∙ ap (λ n. drop n (contents rs ++ chs)) (l ∙ sym (length-contents v))
    ∙ drop-length_append (contents rs) chs

-- After any history `xs` and 64 more bytes `ws`, both sums are the exact sums over `ws`, the
-- oldest byte of which counts 64 times in the second: neither has wrapped.
pub sums-roll_all :
    (xs ws : List ℕ)
    → All IsByte xs
    → All IsByte ws
    → length ws ≡ 64
    → ((roll_all new (xs ++ ws)).s1 ≡ total ws)
      × ((roll_all new (xs ++ ws)).s2 ≡ s2_base + weighted ws)
sums-roll_all xs ws hx hw l =
    let v = roll_all-IsValid xs new-IsValid hx in
    let v' = roll_all-IsValid ws v hw in
    let e = contents_full ws v hw l in
    rw (roll_all-append new xs ws)
      (v'.sum1 ∙ ap total e, v'.sum2 ∙ ap (λ t. s2_base + weighted t) e)

-- The digest depends on the last 64 bytes alone: two streams of bytes that end in the same 64 have
-- one digest, whatever came before.
pub digest-roll_all :
    (xs ys ws : List ℕ)
    → All IsByte xs
    → All IsByte ys
    → All IsByte ws
    → length ws ≡ 64
    → digest (roll_all new (xs ++ ws)) ≡ digest (roll_all new (ys ++ ws))
unfolding digest
digest-roll_all xs ys ws hx hy hw l =
    let p = sums-roll_all xs ws hx hw l in
    let q = sums-roll_all ys ws hy hw l in
    ap₂ (λ a b. bit_or (a * 2 ^ 16 % u32) (bit_and b 0xffff)) (p.0 ∙ sym q.0) (p.1 ∙ sym q.1)

-- The digest is the first sum in the upper sixteen bits and the second in the lower.
digest_halves : (rs : RollSum) → digest rs ≡ rs.s1 % 2 ^ 16 * 2 ^ 16 + rs.s2 % 2 ^ 16
unfolding digest
digest_halves rs =
    let m = bit_and-mask 16 rs.s2 in
    let e : rs.s1 * 2 ^ 16 % u32 ≡ rs.s1 % 2 ^ 16 * 2 ^ 16 = omega arith in
    rw (m, e) (bit_or-shifted 16 (rs.s1 % 2 ^ 16) (rs.s2 % 2 ^ 16) (omega arith))

split_mask : (n : ℕ) → n ≤ 32 → (2 ^ n % u32 + u32 - 1) % u32 ≡ 2 ^ n - 1
split_mask n h = omega (arith, pow-pos n, pow-le-pow n 32 h)

-- `OnSplitWithBits` of up to 32 bits holds exactly when the low `n` bits of the second sum are ones.
pub on_split_with_bits_iff :
    (rs : RollSum) (n : ℕ) → n ≤ 32 → (on_split_with_bits rs n ≡ true) ↔ (rs.s2 % 2 ^ n ≡ 2 ^ n - 1)
unfolding on_split_with_bits
on_split_with_bits_iff rs n h =
    let ones : bit_and (not32 0) (2 ^ n - 1) ≡ 2 ^ n - 1 =
      bit_and-mask n (not32 0) ∙ complement-mod n 32 0 h (omega arith) ∙ omega arith in
    rw (split_mask n h, bit_and-mask n rs.s2, ones) (==_iff (rs.s2 % 2 ^ n) (2 ^ n - 1))

-- On any state, `OnSplit` is `OnSplitWithBits` of 13 bits, and can be read off the digest: it
-- holds exactly when the low 13 bits of the digest are ones.
pub on_split_iff :
    (rs : RollSum)
    → (on_split rs ≡ on_split_with_bits rs blob_bits)
      × ((on_split rs ≡ true) ↔ (digest rs % 2 ^ blob_bits ≡ 2 ^ blob_bits - 1))
unfolding on_split on_split_with_bits
on_split_iff rs =
    let low : digest rs % 2 ^ 13 ≡ rs.s2 % 2 ^ 13 = omega (arith, digest_halves rs) in
    (refl, rw (low, bit_and-mask 13 rs.s2) (==_iff (rs.s2 % 2 ^ 13) (2 ^ 13 - 1)))

trailing_zeros_iff : (w k x : ℕ) → k ≤ w → (k ≤ trailing_zeros w x) ↔ (x % 2 ^ k ≡ 0)
unfolding trailing_zeros
trailing_zeros_iff w zero x h = (λ _. omega arith, λ _. omega arith)
trailing_zeros_iff zero (suc k) x h = absurd (omega arith)
trailing_zeros_iff (suc w) (suc k) x h =
    let ih = trailing_zeros_iff w k (x / 2) (omega arith) in
    let e : x % 2 ^ suc k ≡ x / 2 % 2 ^ k * 2 + x % 2 =
      ap (λ p. x % p) (pow-suc 2 k) ∙ mod-double x (2 ^ k) (pow-pos k) in
    (λ p. ground (arith, ih.0, e), λ p. ground (arith, ih.1, e))

-- `Bits` is 13 and the number of ones that follow bit 13 of the digest: for every `k`, it is at least
-- `13 + k` exactly when the `k` bits of the digest from bit 14 on are ones.
pub bits_iff :
    (rs : RollSum) (k : ℕ)
    → k ≤ 32
    → (blob_bits + k ≤ bits rs) ↔ (digest rs / 2 ^ 14 % 2 ^ k ≡ 2 ^ k - 1)
unfolding bits
bits_iff rs k h =
    let d = digest rs / 2 ^ 14 in
    let hd : d < 2 ^ 32 = unfold digest in omega (arith, digest_halves rs) in
    let tz = trailing_zeros_iff 32 k (not32 d) h in
    let c : not32 d % 2 ^ k ≡ 2 ^ k - 1 - d % 2 ^ k = complement-mod k 32 d h hd in
    let lt = mod-lt d (pow-pos k) in
    (λ p. omega (arith, tz.0 (omega arith)), λ p. omega (arith, tz.1 (omega arith)))
