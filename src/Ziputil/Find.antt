-- ===== src/Ziputil/Find.antt =====
-- `findSignatureInBlock` of ziputil/ziputil.go finds the end of the directory.
use go.Common.{
  ℕ, zero, suc, ◌+◌, ◌-◌, ◌^◌, ◌≤◌, ◌<◌, ◌≡◌, refl, ap, ◌∙◌, arith, true, false, none, some, List,
  [], ◌∷◌, ◌++◌, drop, length, length-append, drop-append, drop-append_le, drop-append_ge,
  length-drop, dec_lt,
}
use go.Ziputil.ReadBuf.{put}
use go.Ziputil.End.{signature_from}
use go.Ziputil.End.Search.{
  byte_at, signature_at, comment_len_at, search_down, find_signature_in_block,
}
use go.Ziputil.Bounds.{found_in_last}
use go.Ziputil.Written.{LastSignature, end_bytes}

byte_at-append : (i : ℕ) (a b : List ℕ) → byte_at (length a + i) (a ++ b) ≡ byte_at i b
unfolding byte_at
byte_at-append i [] b = ap (λ k. byte_at k b) (omega arith)
byte_at-append i (x ∷ a) b =
    ap (λ k. byte_at k (x ∷ (a ++ b))) {y = suc (length a + i)} (omega arith) ∙ byte_at-append i a b

signature_at-append :
    (i : ℕ) (a b : List ℕ) → signature_at (length a + i) (a ++ b) ≡ signature_at i b
unfolding signature_at
signature_at-append i a b =
    let shift : (k : ℕ) → byte_at (length a + i + k) (a ++ b) ≡ byte_at (i + k) b = λ k.
      ap (λ t. byte_at t (a ++ b)) {y = length a + (i + k)} (omega arith)
      ∙ byte_at-append (i + k) a b in
    rw (byte_at-append i a b, shift 1, shift 2, shift 3) refl

comment_len_at-append :
    (i : ℕ) (a b : List ℕ) → comment_len_at (length a + i) (a ++ b) ≡ comment_len_at i b
unfolding comment_len_at
comment_len_at-append i a b =
    let shift : (k : ℕ) → byte_at (length a + i + k) (a ++ b) ≡ byte_at (i + k) b = λ k.
      ap (λ t. byte_at t (a ++ b)) {y = length a + (i + k)} (omega arith)
      ∙ byte_at-append (i + k) a b in
    rw (shift 20, shift 21) refl

-- The search ends at the last signature, if its comment is all there.
search_down-finds :
    (n i : ℕ) (b : List ℕ)
    → i < n
    → signature_at i b ≡ true
    → comment_len_at i b + 22 + i ≤ length b
    → ((j : ℕ) → i < j → j < n → signature_at j b ≡ false)
    → search_down n b ≡ some i
unfolding search_down
search_down-finds zero i b l s c q = absurd (omega arith)
search_down-finds (suc n) i b l s c q = elim (dec_lt i n) [
  | yes less ↦
      let away = q n less (omega arith) in
      let later = search_down-finds n i b less s c (λ j p r. q j p (omega arith)) in
      ground (arith, away, later)
  | no ge ↦ let same : n ≡ i = omega (arith, ge) in rw same (ground (arith, s, c))
]

signature-end_bytes :
    (records size offset : ℕ) (comment : List ℕ)
    → length comment < 256 ^ 2
    → let b = end_bytes records size offset comment in
      (signature_at 0 b ≡ true)
      × (comment_len_at 0 b ≡ length comment)
      × (length b ≡ 22 + length comment)
unfolding signature_at comment_len_at end_bytes put byte_at
signature-end_bytes records size offset comment h = (refl, omega (arith, h), omega arith)

at_front :
    {A : Type 0} (g : ℕ → List ℕ → A) (a b : List ℕ)
    → g (length a + 0) (a ++ b) ≡ g 0 b
    → g (length a) (a ++ b) ≡ g 0 b
at_front g a b e = ap (λ k. g k (a ++ b)) {y = length a + 0} (omega arith) ∙ e

-- In bytes that end with the end of a directory, that is found.
pub found_in_last-end_bytes :
    (n : ℕ) (front : List ℕ) (records size offset : ℕ) (comment : List ℕ)
    → let b = end_bytes records size offset comment in
      length comment < 256 ^ 2
      → LastSignature b
      → length b ≤ n
      → n ≤ length (front ++ b)
      → found_in_last n (front ++ b) ≡ some (b, length front)
unfolding found_in_last signature_from find_signature_in_block
found_in_last-end_bytes n front records size offset comment h last enough most =
    let b = end_bytes records size offset comment in
    let total = length-append front b in
    let m = length (front ++ b) - n in
    let f = drop m front in
    let f_len : length f ≡ length front - m = length-drop m front in
    let split : drop m (front ++ b) ≡ f ++ b =
      drop-append_le m front b (omega (arith, total, enough)) in
    let (signed, len, whole) = signature-end_bytes records size offset comment h in
    let fb = length-append f b in
    let found : search_down (suc (length (f ++ b)) - 22) (f ++ b) ≡ some (length f) =
      search_down-finds (suc (length (f ++ b)) - 22) (length f) (f ++ b) (omega (arith, fb, whole))
        (at_front signature_at f b (signature_at-append 0 f b) ∙ signed)
        (omega (arith, fb, whole, len, at_front comment_len_at f b (comment_len_at-append 0 f b)))
        (λ j p q.
          ap (λ k. signature_at k (f ++ b)) {y = length f + (j - length f)} (omega (arith, p))
          ∙ signature_at-append (j - length f) f b
          ∙ last (j - length f) (omega (arith, p)) (omega (arith, p, q, fb))) in
    rw (split, signature_from, found, split, drop-append (length f) f b refl)
      (ap (λ k. some (b, k)) (omega (arith, f_len, total, enough, most)))

byte_at-drop : (m i : ℕ) (b : List ℕ) → byte_at i (drop m b) ≡ byte_at (m + i) b
unfolding byte_at
byte_at-drop zero i b = ap (λ k. byte_at k b) (omega arith)
byte_at-drop (suc m) i [] = refl
byte_at-drop (suc m) i (x ∷ b) =
    byte_at-drop m i b ∙ ap (λ k. byte_at k (x ∷ b)) {x = suc (m + i)} (omega arith)

signature_at-drop : (m i : ℕ) (b : List ℕ) → signature_at i (drop m b) ≡ signature_at (m + i) b
unfolding signature_at
signature_at-drop m i b =
    let shift : (k : ℕ) → byte_at (i + k) (drop m b) ≡ byte_at (m + i + k) b =
      λ k. byte_at-drop m (i + k) b ∙ ap (λ t. byte_at t b) (omega arith) in
    rw (byte_at-drop m i b, shift 1, shift 2, shift 3) refl

search_down-none :
    (n : ℕ) (b : List ℕ) → ((j : ℕ) → j < n → signature_at j b ≡ false) → search_down n b ≡ none
unfolding search_down
search_down-none zero b q = refl
search_down-none (suc n) b q =
    ground (arith, q n (omega arith), search_down-none n b (λ j p. q j (omega arith)))

-- In the middle of the end of a directory nothing is found.
pub found_in_last-none :
    (n : ℕ) (front b : List ℕ)
    → LastSignature b
    → n < length b
    → found_in_last n (front ++ b) ≡ none
unfolding found_in_last signature_from find_signature_in_block
found_in_last-none n front b last short =
    let total = length-append front b in
    let m = length b - n in
    let split : drop (length (front ++ b) - n) (front ++ b) ≡ drop m b =
      drop-append_ge (length (front ++ b) - n) front b (omega (arith, total, short))
      ∙ ap (λ k. drop k b) (omega (arith, total, short)) in
    let l = length-drop m b in
    let nothing : search_down (suc (length (drop m b)) - 22) (drop m b) ≡ none =
      search_down-none (suc (length (drop m b)) - 22) (drop m b) (λ j p.
        signature_at-drop m j b
        ∙ last (m + j) (omega (arith, short)) (omega (arith, l, p, short))) in
    rw (split, signature_from, nothing) refl
