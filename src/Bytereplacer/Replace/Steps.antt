-- ===== src/Bytereplacer/Replace/Steps.antt =====
-- bytereplacer/bytereplacer.go: one round of Replace, seen as the bytes already replaced and the
-- bytes left.
pub mod Put
use go.Common.{
  ℕ, zero, suc, ◌+◌, ◌-◌, ◌≤◌, ◌<◌, ◌≡◌, refl, sym, ap, ◌∙◌, arith, Bool, List, [], ◌∷◌, ◌++◌, ◌==◌,
  length, take, drop, Bool-cases, inl, inr, append_assoc, append-nil, length-take, length-drop,
  drop-drop,
}
use go.Bytereplacer.Buffer.{slice, contents, Fine, append-Appended}
use go.Bytereplacer.Replace.{State, advance, copy_unmatched, rest_of, finish, start}

take_nil : (n : ℕ) → take {A = ℕ} n [] ≡ []
take_nil zero = refl
take_nil (suc n) = refl

take-plus : (m n : ℕ) (xs : List ℕ) → take m xs ++ take n (drop m xs) ≡ take (m + n) xs
take-plus zero n xs = ap (λ k. take k xs) {y = 0 + n} (omega arith)
take-plus (suc m) n [] = take_nil n ∙ sym (take_nil (suc m + n))
take-plus (suc m) n (x ∷ xs) =
    let e : suc m + n ≡ suc (m + n) = omega arith in rw e (ap (λ t. x ∷ t) (take-plus m n xs))

drop-take : (k n : ℕ) (xs : List ℕ) → drop k (take n xs) ≡ take (n - k) (drop k xs)
drop-take zero n xs = ap (λ j. take j xs) {y = n - 0} (omega arith)
drop-take (suc k) zero xs = ap (λ j. take j (drop (suc k) xs)) {x = 0} (omega arith)
drop-take (suc k) (suc n) [] = sym (take_nil (suc n - suc k))
drop-take (suc k) (suc n) (x ∷ xs) =
    drop-take k n xs ∙ ap (λ j. take j (drop k xs)) {y = suc n - suc k} (omega arith)

slice-append :
    (mem : List ℕ) (a i j : ℕ) → a ≤ i → i ≤ j → slice mem a i ++ slice mem i j ≡ slice mem a j
slice-append mem a i j h g =
    let at : drop i mem ≡ drop (i - a) (drop a mem) =
      ap (λ k. drop k mem) {x = i} (omega (arith, h)) ∙ sym (drop-drop (i - a) a mem) in
    ap (λ t. slice mem a i ++ take (j - i) t) at
    ∙ take-plus (i - a) (j - i) (drop a mem)
    ∙ ap (λ k. take k (drop a mem)) {y = j - a} (omega (arith, h, g))

pub slice-drop : (mem : List ℕ) (i j k : ℕ) → drop k (slice mem i j) ≡ slice mem (i + k) j
slice-drop mem i j k =
    drop-take k (j - i) (drop i mem)
    ∙ rw (drop-drop k i mem) (ap (λ n. take n (drop (i + k) mem)) {y = j - (i + k)} (omega arith))

pub length-slice : (mem : List ℕ) (i j : ℕ) → j ≤ length mem → length (slice mem i j) ≡ j - i
length-slice mem i j h = omega (arith, length-take (j - i) (drop i mem), length-drop i mem, h)

slice_one :
    (mem : List ℕ) (i j b : ℕ) (rest : List ℕ)
    → i < j
    → slice mem i j ≡ b ∷ rest
    → slice mem i (i + 1) ≡ b ∷ []
slice_one mem i j b rest lt e =
    ap (λ n. take n (drop i mem)) {y = 1} (omega arith)
    ∙ sym (take_one (j - i) (drop i mem) (omega (arith, lt)))
    ∙ ap (take 1) e
  where
    take_one : (n : ℕ) (xs : List ℕ) → 0 < n → take 1 (take n xs) ≡ take 1 xs
    take_one zero xs h = absurd (omega arith)
    take_one (suc n) [] h = refl
    take_one (suc n) (x ∷ xs) h = refl

-- Before the end: what stands in dst and since the last match is out, and rest is left.
pub record Live (st : State) (out rest : List ℕ) : Type 0 where
  pub inside : st.i ≤ st.len
  pub in_array : st.len ≤ length (st.mem)
  pub ordered : st.last ≤ st.i
  pub fine : Fine (st.grown) (st.dst) (st.last)
  pub done : contents (st.mem) (st.dst) ++ slice (st.mem) (st.last) (st.i) ≡ out
  pub todo : rest_of st ≡ rest

-- Past the end.
pub record Over (st : State) (out : List ℕ) : Type 0 where
  pub past : st.i ≡ st.len + 1
  pub in_array : st.len ≤ length (st.mem)
  pub ordered : st.last ≤ st.len
  pub fine : Fine (st.grown) (st.dst) (st.last)
  pub done : contents (st.mem) (st.dst) ++ slice (st.mem) (st.last) (st.len) ≡ out

-- Once the bytes since the last match are copied.
pub record Copied (st : State) (out rest : List ℕ) : Type 0 where
  pub inside : st.i ≤ st.len
  pub in_array : st.len ≤ length (st.mem)
  pub fine : Fine (st.grown) (st.dst) (st.i)
  pub done : contents (st.mem) (st.dst) ≡ out
  pub todo : rest_of st ≡ rest

pub Live-length : (st : State) (out rest : List ℕ) → Live st out rest → length rest ≡ st.len - st.i
Live-length st out rest h =
    ap length (sym (h.todo)) ∙ length-slice (st.mem) (st.i) (st.len) (h.in_array)

pub start-Live :
    (mem : List ℕ) (len : ℕ) → len ≤ length mem → Live (start mem len) [] (take len mem)
start-Live mem len h = record {
  inside = omega arith;
  in_array = h;
  ordered = omega arith;
  fine = (refl, omega arith);
  done = ap (λ n. take n mem) {x = 0 - 0} {y = 0} (omega arith);
  todo = ap (λ n. take n mem) {x = len - 0} {y = len} (omega arith);
}

pub advance-Live :
    (st : State) (prev : Bool) (out : List ℕ) (b : ℕ) (rest : List ℕ)
    → Live st out (b ∷ rest)
    → Live (advance st prev) (out ++ (b ∷ [])) rest
advance-Live st prev out b rest h =
    let len = Live-length st out (b ∷ rest) h in
    let lt : st.i < st.len = omega (arith, len) in
    record {
      inside = omega (arith, lt);
      in_array = h.in_array;
      ordered = omega (arith, h.ordered);
      fine = h.fine;
      done =
          ap (λ t. contents (st.mem) (st.dst) ++ t)
            (sym (slice-append (st.mem) (st.last) (st.i) (st.i + 1) (h.ordered) (omega arith))
              ∙ ap (λ t. slice (st.mem) (st.last) (st.i) ++ t)
                  (slice_one (st.mem) (st.i) (st.len) b rest lt (h.todo)))
          ∙ sym
              (append_assoc (contents (st.mem) (st.dst)) (slice (st.mem) (st.last) (st.i)) (b ∷ []))
          ∙ ap (λ t. t ++ (b ∷ [])) (h.done);
      todo = sym (slice-drop (st.mem) (st.i) (st.len) 1) ∙ ap (drop 1) (h.todo);
    }

pub advance-Over :
    (st : State) (prev : Bool) (out : List ℕ) → Live st out [] → Over (advance st prev) out
advance-Over st prev out h =
    let len = Live-length st out [] h in
    let at_end : st.len ≡ st.i = omega (arith, len, h.inside) in
    record {
      past = omega (arith, at_end);
      in_array = h.in_array;
      ordered = omega (arith, h.ordered, at_end);
      fine = h.fine;
      done = ap (λ n. contents (st.mem) (st.dst) ++ slice (st.mem) (st.last) n) at_end ∙ h.done;
    }

pub copy_unmatched-Copied :
    (st : State) (prev : Bool) (out rest : List ℕ)
    → Live st out rest
    → Copied (copy_unmatched st prev) out rest
unfolding copy_unmatched
copy_unmatched-Copied st prev out rest h =
    let xs = slice (st.mem) (st.last) (st.i) in
    let len : length xs ≡ st.i - st.last =
      length-slice (st.mem) (st.last) (st.i) (omega (arith, h.inside, h.in_array)) in
    let a =
      append-Appended (st.grown) (st.mem) (st.dst) xs (st.last) (st.i) (h.fine)
        (inr (omega (arith, len, h.ordered), omega (arith, h.inside, h.in_array))) in
    record {
      inside = h.inside;
      in_array = omega (arith, a.same_length, h.in_array);
      fine = a.fine;
      done = a.appended ∙ h.done;
      todo = ap (take (st.len - st.i)) (a.kept (st.i) (omega arith)) ∙ h.todo;
    }

pub finish-Over : (st : State) (out : List ℕ) → Over st out → finish st ≡ out
finish-Over st out h =
    let xs = slice (st.mem) (st.last) (st.len) in
    let len : length xs ≡ st.len - st.last =
      length-slice (st.mem) (st.last) (st.len) (h.in_array) in
    elim (Bool-cases (st.last == st.len)) [
      | inl e ↦
          let same : st.last ≡ st.len = ground (arith, e) in
          let none_left : xs ≡ [] =
            ap (λ n. take n (drop (st.last) (st.mem))) {y = 0} (omega (arith, same)) in
          rw e (
            sym (append-nil (contents (st.mem) (st.dst)))
            ∙ ap (λ t. contents (st.mem) (st.dst) ++ t) (sym none_left)
            ∙ h.done)
      | inr n ↦
          let a =
            append-Appended (st.grown) (st.mem) (st.dst) xs (st.last) (st.len) (h.fine)
              (inr (omega (arith, len, h.ordered), h.in_array)) in
          rw n (a.appended ∙ h.done)
    ]
