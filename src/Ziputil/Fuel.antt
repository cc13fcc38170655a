-- ===== src/Ziputil/Fuel.antt =====
-- The loops of ziputil/ziputil.go over the extra fields and over the runes of a name end by themselves.
use go.Common.{
  ℕ, zero, suc, ◌-◌, ◌≤◌, ◌<◌, ◌≡◌, refl, arith, Bool, true, Option, some, List, [], ◌∷◌, length,
  take, drop, ltb, length-drop, Bool-cases, inl, inr,
}
use go.Ziputil.ReadBuf.{uint, sub, Result-cases}
use go.Ziputil.Header.Extras.{Stamp, ntfs_ticks, Found, read_extra, extras_loop, ntfs_attributes}
use go.Ziputil.Names.{decode_rune, decode2, decode3, decode4, detect_from}

-- What a round leaves of the bytes.
shorter : (b : List ℕ) (size : ℕ) → length (drop size (drop 2 (drop 2 b))) ≤ length b - 4
shorter b size =
    omega (arith, length-drop size (drop 2 (drop 2 b)), length-drop 2 (drop 2 b), length-drop 2 b)

-- Whatever the fuel, if it is no less than the bytes, the loop over the extra fields gives the same.
pub extras_loop-enough :
    (n m : ℕ) (f : Found) (extra : List ℕ)
    → length extra ≤ n
    → length extra ≤ m
    → extras_loop n f extra ≡ extras_loop m f extra
unfolding extras_loop uint sub
extras_loop-enough zero zero f extra a b = refl
extras_loop-enough zero (suc m) f extra a b = ground (arith, a)
extras_loop-enough (suc n) zero f extra a b = ground (arith, b)
extras_loop-enough (suc n) (suc m) f extra a b =
    let b2 = drop 2 (drop 2 extra) in
    let size = (uint 2 (drop 2 extra)).0 in
    let l = shorter extra size in
    elim (Bool-cases (ltb (length extra) 4)) [
      | inl short ↦ ground (arith, short)
      | inr long ↦
          let less : length (drop size b2) < length extra = ground (arith, l, long) in
          elim (Result-cases (read_extra (uint 2 extra).0 (take size b2) f)) [
            | inr (e, wrong) ↦ ground (arith, wrong)
            | inl (f1, right) ↦
                let rec =
                  extras_loop-enough n m f1 (drop size b2) (omega (arith, less))
                    (omega (arith, less)) in
                ground (arith, right, rec)
          ]
    ]

pub ntfs_attributes-enough :
    (n m : ℕ) (modified : Option Stamp) (b : List ℕ)
    → length b ≤ n
    → length b ≤ m
    → ntfs_attributes n modified b ≡ ntfs_attributes m modified b
unfolding ntfs_attributes uint sub
ntfs_attributes-enough zero zero f b p q = refl
ntfs_attributes-enough zero (suc m) f b p q = ground (arith, p)
ntfs_attributes-enough (suc n) zero f b p q = ground (arith, q)
ntfs_attributes-enough (suc n) (suc m) f b p q =
    let b2 = drop 2 (drop 2 b) in
    let size = (uint 2 (drop 2 b)).0 in
    let l = shorter b size in
    elim (Bool-cases (ltb (length b) 4)) [
      | inl short ↦ ground (arith, short)
      | inr long ↦
          let less : length (drop size b2) < length b = ground (arith, l, long) in
          let kept =
            ntfs_attributes-enough n m f (drop size b2) (omega (arith, less))
              (omega (arith, less)) in
          let taken =
            ntfs_attributes-enough n m (some (ntfs_ticks (uint 8 (take size b2)).0)) (drop size b2)
              (omega (arith, less)) (omega (arith, less)) in
          rw (kept, taken) refl
    ]

-- A rune takes a byte at least.
decode_rune-positive : (x : ℕ) (s : List ℕ) → 1 ≤ (decode_rune (x ∷ s)).1
unfolding decode_rune decode2 decode3 decode4
decode_rune-positive x [] = ground arith
decode_rune-positive x (a ∷ []) = ground arith
decode_rune-positive x (a ∷ b ∷ []) = ground arith
decode_rune-positive x (a ∷ b ∷ c ∷ s) = ground arith

pub detect_from-enough :
    (n m : ℕ) (require : Bool) (s : List ℕ)
    → length s ≤ n
    → length s ≤ m
    → detect_from n require s ≡ detect_from m require s
unfolding detect_from
detect_from-enough zero zero require s a b = refl
detect_from-enough zero (suc m) require [] a b = refl
detect_from-enough (suc n) zero require [] a b = refl
detect_from-enough (suc n) (suc m) require [] a b = refl
detect_from-enough zero (suc m) require (x ∷ s) a b = absurd (omega arith)
detect_from-enough (suc n) zero require (x ∷ s) a b = absurd (omega arith)
detect_from-enough (suc n) (suc m) require (x ∷ s) a b =
    let size = (decode_rune (x ∷ s)).1 in
    let l = length-drop size (x ∷ s) in
    let p = decode_rune-positive x s in
    let plain =
      detect_from-enough n m require (drop size (x ∷ s)) (omega (arith, l, p))
        (omega (arith, l, p)) in
    let special =
      detect_from-enough n m true (drop size (x ∷ s)) (omega (arith, l, p)) (omega (arith, l, p)) in
    rw (plain, special) refl
