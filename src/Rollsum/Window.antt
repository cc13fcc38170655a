-- ===== src/Rollsum/Window.antt =====
-- The window of rollsum/rollsum.go read as a queue of its last 64 bytes, and the sums kept over it.
use go.Common.{
  ℕ, zero, suc, ◌+◌, ◌-◌, ◌*◌, ◌%◌, ◌^◌, ◌≤◌, ◌<◌, ◌≡◌, inl, inr, refl, sym, ap, ◌∙◌, List, [], ◌∷◌,
  ◌++◌, append-nil, append_assoc, arith, length, get_or, set, take, drop, All, All-append,
  length-append, length-set, length-drop, length-take, take_of_le, drop_of_le, Bool-cases, ltb,
}
use go.Common.Bits.{bit_and-mask}
use go.Rollsum.{RollSum, window_size, char_offset, u32, new, roll}

abbrev pub IsByte : ℕ → Type 0
IsByte b = b < 256

-- The bytes of the window, the oldest first.
pub contents : RollSum → List ℕ
contents rs = drop rs.wofs rs.window ++ take rs.wofs rs.window

-- Each byte counts with the offset 31, in `weighted` once for every round that it has yet to stay.
pub total : List ℕ → ℕ
total [] = 0
total (x ∷ xs) = x + char_offset + total xs

pub weighted : List ℕ → ℕ
weighted [] = 0
weighted (x ∷ xs) = suc (length xs) * (x + char_offset) + weighted xs

pub total-append : (xs ys : List ℕ) → total (xs ++ ys) ≡ total xs + total ys
unfolding total
total-append [] ys = omega arith
total-append (x ∷ xs) ys = omega (arith, total-append xs ys)

weighted-snoc :
    (xs : List ℕ) (c : ℕ) → weighted (xs ++ (c ∷ [])) ≡ weighted xs + total xs + (c + char_offset)
unfolding weighted total
weighted-snoc [] c = omega arith
weighted-snoc (x ∷ xs) c = rw (length-append xs (c ∷ [])) (omega (arith, weighted-snoc xs c))

total-le : (xs : List ℕ) → All IsByte xs → total xs ≤ 286 * length xs
unfolding total
total-le [] h = omega arith
total-le (x ∷ xs) (hx, hxs) = omega (arith, total-le xs hxs)

weighted-le : (xs : List ℕ) → All IsByte xs → length xs ≤ 64 → weighted xs ≤ 18304 * length xs
unfolding weighted
weighted-le [] h l = omega arith
weighted-le (x ∷ xs) (hx, hxs) l = grind (arith, weighted-le xs hxs)

-- The initial sums exceed those of 64 zero bytes by this much.
abbrev pub s2_base : ℕ
s2_base = 60512

pub record IsValid (rs : RollSum) : Type 0 where
  pub size : length rs.window ≡ window_size
  pub inside : rs.wofs < window_size
  pub bytes : All IsByte (contents rs)
  pub sum1 : rs.s1 ≡ total (contents rs)
  pub sum2 : rs.s2 ≡ s2_base + weighted (contents rs)

-- The two halves of a list round the element at `i`.
drop-get : (xs : List ℕ) (i : ℕ) → i < length xs → drop i xs ≡ get_or xs i 0 ∷ drop (suc i) xs
drop-get [] i h = absurd (omega arith)
drop-get (x ∷ xs) zero h = refl
drop-get (x ∷ xs) (suc i) h = drop-get xs i (omega arith)

drop-set : (xs : List ℕ) (i c : ℕ) → drop (suc i) (set xs i c) ≡ drop (suc i) xs
drop-set [] i c = refl
drop-set (x ∷ xs) zero c = refl
drop-set (x ∷ xs) (suc i) c = drop-set xs i c

take-set :
    (xs : List ℕ) (i c : ℕ) → i < length xs → take (suc i) (set xs i c) ≡ take i xs ++ (c ∷ [])
take-set [] i c h = absurd (omega arith)
take-set (x ∷ xs) zero c h = refl
take-set (x ∷ xs) (suc i) c h = ap (λ t. x ∷ t) (take-set xs i c (omega arith))

-- All bytes of the window but the oldest.
abbrev younger : RollSum → List ℕ
younger rs = drop (suc rs.wofs) rs.window ++ take rs.wofs rs.window

contents-younger :
    {rs : RollSum} → IsValid rs → contents rs ≡ get_or rs.window rs.wofs 0 ∷ younger rs
unfolding contents
contents-younger {rs} v = rw (drop-get rs.window rs.wofs (omega arith))

wofs-roll : {rs : RollSum} (c : ℕ) → IsValid rs → (roll rs c).wofs ≡ (rs.wofs + 1) % 64
unfolding roll
wofs-roll {rs} c v = bit_and-mask 6 (rs.wofs + 1)

rotated :
    (w : List ℕ) (i j c : ℕ)
    → length w ≡ 64
    → i < 64
    → j ≡ (i + 1) % 64
    → drop j (set w i c) ++ take j (set w i c) ≡ (drop (suc i) w ++ take i w) ++ (c ∷ [])
rotated w i j c hl hi e = elim (Bool-cases (ltb i 63)) [
  | inl t ↦
      let e' : j ≡ suc i = ground arith in
      rw (e', drop-set w i c, take-set w i c (omega arith), append_assoc)
  | inr t ↦
      let e' : j ≡ 0 = ground arith in
      let n : suc i ≡ length (set w i c) = ground (arith, length-set w i c) in
      rw (e', append-nil, drop_of_le (suc i) w (ground arith))
        (sym (take_of_le (suc i) (set w i c) (omega arith)) ∙ take-set w i c (omega arith))
]

-- In a valid state `Roll` drops the oldest byte of the window and appends the new one.
pub contents-roll :
    {rs : RollSum} (c : ℕ) → IsValid rs → contents (roll rs c) ≡ drop 1 (contents rs) ++ (c ∷ [])
contents-roll {rs} c v =
    unfold contents roll in
    rotated rs.window rs.wofs _ c v.size v.inside (wofs-roll c v)
    ∙ ap (λ t. drop 1 t ++ (c ∷ [])) (sym (contents-younger v))

pub length-contents : {rs : RollSum} → IsValid rs → length (contents rs) ≡ 64
unfolding contents
length-contents {rs} v = omega (
  arith,
  length-append (drop rs.wofs rs.window) (take rs.wofs rs.window),
  length-drop rs.wofs rs.window,
  length-take rs.wofs rs.window,
  v.size,
  v.inside,
)

sum1-roll :
    {rs : RollSum} (c : ℕ)
    → IsValid rs
    → IsByte c
    → (roll rs c).s1 ≡ total (younger rs) + (c + char_offset)
unfolding roll total
sum1-roll {rs} c v hc =
    let x = get_or rs.window rs.wofs 0 in
    let xs = younger rs in
    let e = contents-younger v in
    let hs : rs.s1 ≡ total (x ∷ xs) = v.sum1 ∙ ap total e in
    let hb : All IsByte (x ∷ xs) = rw e at (v.bytes) in
    let hl : length (x ∷ xs) ≡ 64 = rw e at (length-contents v) in omega (arith, total-le xs hb.1)

-- The second sum with all its wrapping, where no step wraps for good.
add_sums :
    (s1 s2 x w t c : ℕ)
    → s1 ≡ t + (c + char_offset)
    → s2 ≡ s2_base + (64 * (x + char_offset) + w)
    → x < 256
    → c < 256
    → w ≤ 2 ^ 21
    → t ≤ 2 ^ 15
    → (s2 + (s1 + u32 - window_size * ((x + char_offset) % u32) % u32) % u32) % u32
      ≡ s2_base + w + t + (c + char_offset)
add_sums s1 s2 x w t c h1 h2 hx hc hw ht = omega arith

sum2-roll :
    {rs : RollSum} (c : ℕ)
    → IsValid rs
    → IsByte c
    → (roll rs c).s2 ≡ s2_base + weighted (younger rs) + total (younger rs) + (c + char_offset)
unfolding roll weighted
sum2-roll {rs} c v hc =
    let x = get_or rs.window rs.wofs 0 in
    let xs = younger rs in
    let e = contents-younger v in
    let hs : rs.s2 ≡ s2_base + weighted (x ∷ xs) = v.sum2 ∙ ap (λ t. s2_base + weighted t) e in
    let hb : All IsByte (x ∷ xs) = rw e at (v.bytes) in
    let hl : length (x ∷ xs) ≡ 64 = rw e at (length-contents v) in
    let split : weighted (x ∷ xs) ≡ 64 * (x + char_offset) + weighted xs =
      ap (λ n. n * (x + char_offset) + weighted xs) hl in
    add_sums (roll rs c).s1 rs.s2 x (weighted xs) (total xs) c (sum1-roll c v hc)
      (hs ∙ ap (λ n. s2_base + n) split) hb.0 hc (omega (arith, weighted-le xs hb.1))
      (omega (arith, total-le xs hb.1))

-- `Roll` of a byte keeps the invariant: the write offset lies in the window of 64 bytes, and both sums
-- are those of the window.
pub roll-IsValid : {rs : RollSum} (c : ℕ) → IsValid rs → IsByte c → IsValid (roll rs c)
roll-IsValid {rs} c v hc =
    let e = contents-younger v in
    let hb : All IsByte (get_or rs.window rs.wofs 0 ∷ younger rs) = rw e at (v.bytes) in
    let r : contents (roll rs c) ≡ younger rs ++ (c ∷ []) =
      contents-roll c v ∙ ap (λ t. drop 1 t ++ (c ∷ [])) e in
    record {
      size = unfold roll in length-set rs.window rs.wofs c ∙ v.size;
      inside = rw (wofs-roll c v) (omega arith);
      bytes = rw r (All-append IsByte (younger rs) (c ∷ []) hb.1 (hc, tt));
      sum1 =
          rw (r, sum1-roll c v hc, total-append (younger rs) (c ∷ []))
            (unfold total in omega arith);
      sum2 = rw (r, sum2-roll c v hc, weighted-snoc (younger rs) c) (omega arith);
    }

pub new-IsValid : IsValid new
unfolding new contents total weighted
new-IsValid = record {
  size = refl;
  inside = omega arith;
  bytes = omega arith;
  sum1 = refl;
  sum2 = refl;
}
