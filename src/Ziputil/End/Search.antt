-- ===== src/Ziputil/End/Search.antt =====
-- `findSignatureInBlock` of ziputil/ziputil.go.
use go.Common.{
  ℕ, zero, suc, ◌+◌, ◌-◌, ◌*◌, ◌≤◌, ◌<◌, ◌≡◌, arith, Bool, true, false, ◌&&◌, Option, none, some,
  List, [], ◌∷◌, length, ◌==◌, ltb, if◌then◌else◌, Bool-cases, inl, inr, dec_lt, subst,
}

-- The byte at an index; all calls are within the block.
unfoldable pub byte_at : ℕ → List ℕ → ℕ
byte_at i [] = 0
byte_at zero (x ∷ b) = x
byte_at (suc i) (x ∷ b) = byte_at i b

-- The four bytes of `directoryEndSignature` stand at `i`.
unfoldable pub signature_at : ℕ → List ℕ → Bool
unfolding byte_at
signature_at i b =
    (byte_at i b == 80)
    && ((byte_at (i + 1) b == 75) && ((byte_at (i + 2) b == 5) && (byte_at (i + 3) b == 6)))

-- The length of the comment. The high byte of a number of two bytes is or'ed in, which adds it.
unfoldable pub comment_len_at : ℕ → List ℕ → ℕ
unfolding byte_at
comment_len_at i b = byte_at (i + 20) b + 256 * byte_at (i + 21) b

-- The loop, where `n` indices are left; it begins with the last one.
unfoldable pub search_down : ℕ → List ℕ → Option ℕ
unfolding signature_at comment_len_at
search_down zero b = none
search_down (suc i) b =
    let before = search_down i b in
    if signature_at i b
    then (if ltb (length b) (comment_len_at i b + 22 + i) then none else some i)
    else before

unfoldable pub find_signature_in_block : List ℕ → Option ℕ
unfolding search_down
find_signature_in_block b = search_down (suc (length b) - 22) b

-- What `search_down` says of its answer.
pub record LastFound (n : ℕ) (b : List ℕ) (i : ℕ) : Type 0 where
  pub below : i < n
  pub signed : signature_at i b ≡ true
  pub whole : comment_len_at i b + 22 + i ≤ length b
  pub last : (j : ℕ) → i < j → j < n → signature_at j b ≡ false

pub search_down-Last : (n : ℕ) (b : List ℕ) (i : ℕ) → search_down n b ≡ some i → LastFound n b i
unfolding search_down
search_down-Last zero b i e = absurd (ground (arith, e))
search_down-Last (suc n) b i e = elim (Bool-cases (signature_at n b)) [
  | inl here ↦
      let same : n ≡ i = ground (arith, here, e) in
      let fits : comment_len_at n b + 22 + n ≤ length b = ground (arith, here, e) in
      subst (LastFound (suc n) b) same (record {
        below = omega arith;
        signed = here;
        whole = fits;
        last = λ j p q. absurd (omega arith);
      })
  | inr away ↦
      let l = search_down-Last n b i (ground (arith, away, e)) in
      record {
        below = omega (arith, l.below);
        signed = l.signed;
        whole = l.whole;
        last = λ j p q. elim (dec_lt j n) [
          | yes less ↦ l.last j p less
          | no ge ↦ subst (λ t. signature_at t b ≡ false) (omega (arith, ge)) away
        ];
      }
]
