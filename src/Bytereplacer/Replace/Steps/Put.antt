-- ===== src/Bytereplacer/Replace/Steps/Put.antt =====
-- bytereplacer/bytereplacer.go: the ways in which Replace writes a value to dst.
use go.Common.{
  ℕ, ◌+◌, ◌-◌, ◌≤◌, ◌<◌, ◌≡◌, refl, sym, ap, ◌∙◌, arith, true, false, ◌||◌, List, ◌++◌, ltb, leb,
  length, take, drop, Bool-cases, ◌⊎◌, inl, inr, append-nil, take-append, take_of_le,
}
use go.Bytereplacer.Buffer.{
  copy_at, slice, Dst, shared, own, contents, append_dst, Fine, append-Appended,
  take-copy_at_before, drop-copy_at_from, length-copy_at,
}
use go.Bytereplacer.Replace.{State, put_value, put_after, put_moving, put_growing, move_rest}
use go.Bytereplacer.Replace.Steps.{slice-drop, length-slice, Live, Copied}

Copied-length : (st : State) (out rest : List ℕ) → Copied st out rest → length rest ≡ st.len - st.i
Copied-length st out rest h =
    ap length (sym (h.todo)) ∙ length-slice (st.mem) (st.i) (st.len) (h.in_array)

-- Nothing is copied yet after a match.
none_since :
    (mem : List ℕ) (dst : Dst) (i : ℕ) → contents mem dst ++ slice mem i i ≡ contents mem dst
none_since mem dst i =
    ap (λ n. contents mem dst ++ take n (drop i mem)) {y = 0} (omega arith)
    ∙ append-nil (contents mem dst)

put_after-Live :
    (st : State) (val : List ℕ) (keylen : ℕ) (out rest : List ℕ)
    → Copied st out rest
    → keylen ≤ length rest
    → (st.grown || ltb (length val) keylen) ≡ true
    → Live (put_after st val keylen) (out ++ val) (drop keylen rest)
unfolding put_after
put_after-Live st val keylen out rest h le g =
    let len = Copied-length st out rest h in
    let room : (st.grown ≡ true)
        ⊎ ((st.i + length val ≤ st.i + keylen) × (st.i + keylen ≤ length (st.mem))) =
      elim (Bool-cases (st.grown)) [
        | inl is_grown ↦ inl is_grown
        | inr not_grown ↦
            let lt : length val < keylen = ground (arith, g, not_grown) in
            inr (omega (arith, lt), omega (arith, le, len, h.inside, h.in_array))
      ] in
    let a = append-Appended (st.grown) (st.mem) (st.dst) val (st.i) (st.i + keylen) (h.fine) room in
    record {
      inside = omega (arith, le, len, h.inside);
      in_array = omega (arith, a.same_length, h.in_array);
      ordered = omega arith;
      fine = a.fine;
      done =
          none_since _ (append_dst (st.mem) (st.dst) val) (st.i + keylen)
          ∙ a.appended
          ∙ ap (λ t. t ++ val) (h.done);
      todo =
          ap (take (st.len - (st.i + keylen))) (a.kept (st.i + keylen) (omega arith))
          ∙ sym (slice-drop (st.mem) (st.i) (st.len) keylen)
          ∙ ap (drop keylen) (h.todo);
    }

put_growing-Live :
    (st : State) (val : List ℕ) (keylen : ℕ) (out rest : List ℕ)
    → Copied st out rest
    → keylen ≤ length rest
    → Live (put_growing st val keylen) (out ++ val) (drop keylen rest)
unfolding put_growing
put_growing-Live st val keylen out rest h le =
    let len = Copied-length st out rest h in
    record {
      inside = omega (arith, le, len, h.inside);
      in_array = h.in_array;
      ordered = omega arith;
      fine = refl;
      done =
          none_since (st.mem) (own (contents (st.mem) (st.dst) ++ val)) (st.i + keylen)
          ∙ ap (λ t. t ++ val) (h.done);
      todo = sym (slice-drop (st.mem) (st.i) (st.len) keylen) ∙ ap (drop keylen) (h.todo);
    }

-- What is left is moved behind the place of the value, and dst is not touched.
move_rest-moves :
    (st : State) (val : List ℕ) (keylen : ℕ) (out rest : List ℕ)
    → Copied st out rest
    → keylen ≤ length rest
    → keylen ≤ length val
    → length val - keylen ≤ length (st.mem) - st.len
    → (st.grown ≡ false)
    → (length (move_rest st val keylen) ≡ length (st.mem))
      × (contents (move_rest st val keylen) (st.dst) ≡ out)
      × (take (st.len - (st.i + keylen)) (drop (st.i + length val) (move_rest st val keylen))
          ≡ drop keylen rest)
unfolding move_rest
move_rest-moves st val keylen out rest h le longer room not_grown =
    let len = Copied-length st out rest h in
    let left = slice (st.mem) (st.i + keylen) (st.len) in
    let at = st.i + length val in
    let left_length : length left ≡ st.len - (st.i + keylen) =
      length-slice (st.mem) (st.i + keylen) (st.len) (h.in_array) in
    let fits : at + length left ≤ length (st.mem) =
      omega (arith, left_length, le, len, longer, room, h.inside, h.in_array) in
    let whole : take (length (st.mem) - at) left ≡ left =
      take_of_le (length (st.mem) - at) left (omega (arith, fits)) in
    let is_rest : left ≡ drop keylen rest =
      sym (slice-drop (st.mem) (st.i) (st.len) keylen) ∙ ap (drop keylen) (h.todo) in
    rw whole (
      length-copy_at (st.mem) at left fits,
      before (st.dst) (h.fine) (omega (arith, fits)) ∙ h.done,
      ap (take (st.len - (st.i + keylen)))
            (drop-copy_at_from (st.mem) at left (omega (arith, fits)))
          ∙ take-append (st.len - (st.i + keylen)) left (drop (at + length left) (st.mem))
              (sym left_length)
          ∙ is_rest,
    )
  where
    before :
        (dst : Dst)
        → Fine (st.grown) dst (st.i)
        → st.i + length val ≤ length (st.mem)
        → contents
            (copy_at (st.mem) (st.i + length val) (slice (st.mem) (st.i + keylen) (st.len)))
            dst
          ≡ contents (st.mem) dst
    before (shared n) fine fits =
        take-copy_at_before (st.mem) n (st.i + length val) _ (omega (arith, fine.1)) fits
    before (own xs) fine fits = refl

put_moving-Live :
    (st : State) (val : List ℕ) (keylen : ℕ) (out rest : List ℕ)
    → Copied st out rest
    → keylen ≤ length rest
    → keylen ≤ length val
    → length val - keylen ≤ length (st.mem) - st.len
    → st.grown ≡ false
    → Live (put_moving st val keylen) (out ++ val) (drop keylen rest)
unfolding put_moving
put_moving-Live st val keylen out rest h le longer room not_grown =
    let len = Copied-length st out rest h in
    let moved = move_rest-moves st val keylen out rest h le longer room not_grown in
    let a =
      append-Appended (st.grown) (move_rest st val keylen) (st.dst) val (st.i) (st.i + length val)
        (h.fine)
        (inr (omega arith, omega (arith, moved.0, le, len, longer, room, h.inside, h.in_array))) in
    record {
      inside = omega (arith, le, len, longer, h.inside);
      in_array = omega (arith, a.same_length, moved.0, room, longer, h.in_array);
      ordered = omega arith;
      fine = a.fine;
      done =
          none_since _ (append_dst (move_rest st val keylen) (st.dst) val) (st.i + length val)
          ∙ a.appended
          ∙ ap (λ t. t ++ val) moved.1;
      todo =
          ap (take (st.len + (length val - keylen) - (st.i + length val)))
            (a.kept (st.i + length val) (omega arith))
          ∙ ap (λ n. take n (drop (st.i + length val) (move_rest st val keylen)))
              {y = st.len - (st.i + keylen)} (omega (arith, longer))
          ∙ moved.2;
    }

pub put_value-Live :
    (st : State) (val : List ℕ) (keylen : ℕ) (out rest : List ℕ)
    → Copied st out rest
    → keylen ≤ length rest
    → Live (put_value st val keylen) (out ++ val) (drop keylen rest)
unfolding put_value
put_value-Live st val keylen out rest h le =
    elim (Bool-cases (st.grown || ltb (length val) keylen)) [
      | inl g ↦ rw g (put_after-Live st val keylen out rest h le g)
      | inr shared_dst ↦
          let longer : keylen ≤ length val = ground (arith, shared_dst) in
          let not_grown : st.grown ≡ false = ground (arith, shared_dst) in
          elim (Bool-cases (leb (length val - keylen) (length (st.mem) - st.len))) [
            | inl fits ↦
                rw (shared_dst, fits)
                  (put_moving-Live st val keylen out rest h le longer (ground (arith, fits))
                    not_grown)
            | inr grows ↦ rw (shared_dst, grows) (put_growing-Live st val keylen out rest h le)
          ]
    ]
