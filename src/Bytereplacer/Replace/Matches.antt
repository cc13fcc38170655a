-- ===== src/Bytereplacer/Replace/Matches.antt =====
-- bytereplacer/bytereplacer.go: what Replace computes, described on whole slices without a buffer.
use go.Common.{
  ℕ, zero, suc, ◌-◌, ◌*◌, ◌≤◌, ◌≡◌, refl, sym, ap, ◌∙◌, arith, Bool, true, false, List, [], ◌∷◌,
  ◌++◌, Option, none, some, ◌==◌, length, drop, Bool-cases, Option-cases, inl, inr, append-nil,
}
use go.Bytereplacer.Trie.{
  TrieNode, node, table, Slots, end, vacant, taken, get_slot, set_value, add, has_prefix, Best,
  walk, walk_slots,
}
use go.Bytereplacer.Generic.{add_pairs, Pair}
use go.Bytereplacer.Generic.First.{first_match, usable}
use go.Bytereplacer.Replace.{is_none}

-- After an empty match: a pair whose old string is not empty, or the byte itself. The function
-- says what follows after so many bytes more.
abbrev pub after_empty : (ℕ → List ℕ) → ℕ → Option (List ℕ × ℕ) → List ℕ
after_empty later b none = b ∷ later 0
after_empty later b (some (val, keylen)) = val ++ later (keylen - 1)

-- At a byte: the first pair that matches there, the empty old string included.
abbrev pub at_byte : (ℕ → List ℕ) → ℕ → Option (List ℕ × ℕ) → Option (List ℕ × ℕ) → List ℕ
at_byte later b nonempty none = b ∷ later 0
at_byte later b nonempty (some (val, zero)) = val ++ after_empty later b nonempty
at_byte later b nonempty (some (val, suc keylen)) = val ++ later keylen

abbrev pub at_end : Option (List ℕ × ℕ) → List ℕ
at_end none = []
at_end (some (val, keylen)) = val

-- The replacement of a whole slice, some first bytes of which are passed over: the matches are
-- taken from left to right and do not overlap, and at each place the first pair wins.
unfoldable pub replaced : List Pair → ℕ → List ℕ → List ℕ
replaced pairs (suc passed) [] = []
replaced pairs zero [] = at_end (first_match pairs [] false)
replaced pairs (suc passed) (b ∷ s) = replaced pairs passed s
replaced pairs zero (b ∷ s) =
    at_byte (λ n. replaced pairs n s) b (first_match pairs (b ∷ s) true)
      (first_match pairs (b ∷ s) false)

-- What is still to come, after an empty match or not.
unfoldable pub following : List Pair → Bool → List ℕ → List ℕ
unfolding replaced
following pairs false s = replaced pairs 0 s
following pairs true [] = []
following pairs true (b ∷ s) =
    after_empty (λ n. replaced pairs n s) b (first_match pairs (b ∷ s) true)

replaced-drop :
    (pairs : List Pair) (n : ℕ) (s : List ℕ)
    → n ≤ length s
    → replaced pairs n s ≡ replaced pairs 0 (drop n s)
unfolding replaced
replaced-drop pairs zero s h = refl
replaced-drop pairs (suc n) [] h = absurd (omega arith)
replaced-drop pairs (suc n) (b ∷ s) h = replaced-drop pairs n s (omega arith)

has_prefix-length : (s key : List ℕ) → has_prefix s key ≡ true → length key ≤ length s
has_prefix-length s [] h = omega arith
has_prefix-length [] (q ∷ qs) h = absurd (ground (arith, h))
has_prefix-length (b ∷ s) (q ∷ qs) h = elim (Bool-cases (b == q)) [
  | inl e ↦
      let tail : has_prefix s qs ≡ true = ground (arith, e, h) in
      omega (arith, has_prefix-length s qs tail)
  | inr n ↦ absurd (ground (arith, n, h))
]

usable-bounds :
    (s key : List ℕ) (ignore : Bool)
    → usable s ignore key ≡ true
    → (length key ≤ length s) × ((length key ≡ 0) → ignore ≡ false)
usable-bounds s [] true h = absurd (ground (arith, h))
usable-bounds s [] false h = (omega arith, λ e. refl)
usable-bounds s (q ∷ qs) true h =
    (has_prefix-length s (q ∷ qs) (ground (arith, h)), λ e. absurd (omega (arith, e)))
usable-bounds s (q ∷ qs) false h = (has_prefix-length s (q ∷ qs) (ground (arith, h)), λ e. refl)

abbrev keylen_of : Option (List ℕ × ℕ) → ℕ
keylen_of none = 0
keylen_of (some (v, k)) = k

keylen_same :
    {o : Option (List ℕ × ℕ)} {v w : List ℕ} {k n : ℕ} → o ≡ some (v, k) → o ≡ some (w, n) → k ≡ n
keylen_same e g = sym (ap keylen_of e) ∙ ap keylen_of g

-- A match is no longer than the bytes, and empty only where that is not ignored.
pub first_match-bounds :
    (pairs : List Pair) (s : List ℕ) (ignore : Bool) (val : List ℕ) (keylen : ℕ)
    → first_match pairs s ignore ≡ some (val, keylen)
    → (keylen ≤ length s) × ((keylen ≡ 0) → ignore ≡ false)
unfolding first_match
first_match-bounds [] s ignore val keylen e = absurd (ground (arith, e))
first_match-bounds (p ∷ pairs) s ignore val keylen e = elim (Bool-cases (usable s ignore (p.old))) [
  | inl can ↦
      let chosen : first_match (p ∷ pairs) s ignore ≡ some (p.new, length (p.old)) = rw can refl in
      let len : length (p.old) ≡ keylen = keylen_same chosen e in
      let bounds = usable-bounds s (p.old) ignore can in
      (omega (arith, bounds.0, len), λ z. bounds.1 (len ∙ z))
  | inr cannot ↦
      let eq : first_match pairs s ignore ≡ some (val, keylen) = rw (sym e) (rw cannot refl) in
      first_match-bounds pairs s ignore val keylen eq
]

pub following-none :
    (pairs : List Pair) (prev : Bool) (b : ℕ) (s : List ℕ)
    → first_match pairs (b ∷ s) prev ≡ none
    → following pairs prev (b ∷ s) ≡ b ∷ following pairs false s
unfolding replaced following
following-none pairs true b s e = rw e refl
following-none pairs false b s e = rw e refl

pub following-none_left :
    (pairs : List Pair) (prev : Bool)
    → first_match pairs [] prev ≡ none
    → following pairs prev [] ≡ []
unfolding replaced following
following-none_left pairs true e = refl
following-none_left pairs false e = rw e refl

pub following-some :
    (pairs : List Pair) (prev : Bool) (s val : List ℕ) (keylen : ℕ)
    → first_match pairs s prev ≡ some (val, keylen)
    → following pairs prev s ≡ val ++ following pairs (keylen == 0) (drop keylen s)
unfolding replaced following
following-some pairs true [] val keylen e =
    let bounds = first_match-bounds pairs [] true val keylen e in
    absurd (ground (arith, bounds.1 (omega (arith, bounds.0))))
following-some pairs true (b ∷ s) val zero e =
    let bounds = first_match-bounds pairs (b ∷ s) true val 0 e in
    absurd (ground (arith, bounds.1 refl))
following-some pairs true (b ∷ s) val (suc keylen) e =
    let bounds = first_match-bounds pairs (b ∷ s) true val (suc keylen) e in
    let z : (suc keylen == 0) ≡ false = ground arith in
    rw (e, z)
      (ap (λ n. val ++ replaced pairs n s) {y = keylen} (omega arith)
        ∙ ap (λ t. val ++ t) (replaced-drop pairs keylen s (omega (arith, bounds.0))))
following-some pairs false [] val zero e = rw e (sym (append-nil val))
following-some pairs false [] val (suc keylen) e =
    let bounds = first_match-bounds pairs [] false val (suc keylen) e in
    absurd (omega (arith, bounds.0))
following-some pairs false (b ∷ s) val zero e = rw e refl
following-some pairs false (b ∷ s) val (suc keylen) e =
    let bounds = first_match-bounds pairs (b ∷ s) false val (suc keylen) e in
    let z : (suc keylen == 0) ≡ false = ground arith in
    rw (e, z) (ap (λ t. val ++ t) (replaced-drop pairs keylen s (omega (arith, bounds.0))))

-- Where no old string is empty, it is no matter whether the last match was.
pub following_same :
    (pairs : List Pair) (s : List ℕ)
    → first_match pairs s true ≡ first_match pairs s false
    → (prev : Bool) → following pairs prev s ≡ following pairs false s
following_same pairs s same false = refl
following_same pairs s same true = elim (Option-cases (first_match pairs s true)) [
  | inl e ↦ without s e (sym same ∙ e)
  | inr (m, e) ↦
      following-some pairs true s m.0 m.1 e
      ∙ sym (following-some pairs false s m.0 m.1 (sym same ∙ e))
]
  where
    without :
        (s : List ℕ)
        → first_match pairs s true ≡ none
        → first_match pairs s false ≡ none
        → following pairs true s ≡ following pairs false s
    without [] e g = following-none_left pairs true e ∙ sym (following-none_left pairs false g)
    without (b ∷ s) e g = following-none pairs true b s e ∙ sym (following-none pairs false b s g)

-- The root keeps its table.
abbrev pub Rooted : TrieNode → Type 0
Rooted t = (v : List ℕ) × (p : ℕ) × (xs : Slots) × (t ≡ node v p (table xs))

set_value-Rooted :
    (v w : List ℕ) (p q : ℕ) (xs : Slots) → Rooted (set_value (node v p (table xs)) w q)
set_value-Rooted v w p q xs = elim (Bool-cases (p == 0)) [
  | inl y ↦ (w, q, xs, rw y refl)
  | inr n ↦ (v, p, xs, rw n refl)
]

add-Rooted :
    (mapping : ℕ → ℕ) (n fuel : ℕ) (v : List ℕ) (p : ℕ) (xs : Slots) (key val : List ℕ) (q : ℕ)
    → Rooted (add mapping n fuel (node v p (table xs)) key val q)
unfolding add
add-Rooted mapping n fuel v p xs [] val q = set_value-Rooted v val p q xs
add-Rooted mapping n zero v p xs (k ∷ ks) val q = (v, p, xs, refl)
add-Rooted mapping n (suc fuel) v p xs (k ∷ ks) val q = (v, p, _, refl)

pub add_pairs-Rooted :
    (mapping : ℕ → ℕ) (n : ℕ) (pairs : List Pair) (t : TrieNode)
    → Rooted t
    → Rooted (add_pairs mapping n t pairs)
add_pairs-Rooted mapping n [] t h = h
add_pairs-Rooted mapping n (p ∷ pairs) t (v, q, xs, e) =
    add_pairs-Rooted mapping n pairs _
      (rw e (add-Rooted mapping n (length (p.old)) v q xs (p.old) (p.new) (2 * suc (length pairs))))

pub walk_slots-vacant :
    (mapping : ℕ → ℕ) (n : ℕ) (xs : Slots) (i : ℕ) (s : List ℕ) (d : ℕ) (best : Best)
    → is_none (get_slot xs i) ≡ true
    → walk_slots mapping n xs i s d best ≡ best
unfolding walk
walk_slots-vacant mapping n end i s d best h = refl
walk_slots-vacant mapping n (vacant xs) zero s d best h = refl
walk_slots-vacant mapping n (taken t xs) zero s d best h = absurd (ground (arith, h))
walk_slots-vacant mapping n (vacant xs) (suc i) s d best h =
    walk_slots-vacant mapping n xs i s d best h
walk_slots-vacant mapping n (taken t xs) (suc i) s d best h =
    walk_slots-vacant mapping n xs i s d best h
