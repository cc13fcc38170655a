-- ===== src/Bytereplacer/Buffer.antt =====
-- bytereplacer/bytereplacer.go: the byte slices of Replace. dst is either a start of the array
-- behind s, or an array of its own.
use go.Common.{
  ℕ, zero, suc, ◌+◌, ◌-◌, ◌≤◌, ◌≡◌, refl, sym, ap, ◌∙◌, arith, Bool, true, false, List, [], ◌∷◌,
  ◌++◌, leb, if◌then◌else◌, length, take, drop, ◌⊎◌, inl, inr, append_assoc, length-append,
  length-take, length-drop, take-append, drop-append, take-append_le, drop-append_ge, drop-drop,
}

-- copy(mem[n:], xs), or append where there is room.
abbrev pub copy_at : List ℕ → ℕ → List ℕ → List ℕ
copy_at mem n xs = take n mem ++ xs ++ drop (n + length xs) mem

abbrev pub slice : List ℕ → ℕ → ℕ → List ℕ
slice mem i j = take (j - i) (drop i mem)

pub data Dst : Type 0 where
  shared : ℕ → Dst
  own : List ℕ → Dst

abbrev pub contents : List ℕ → Dst → List ℕ
contents mem (shared n) = take n mem
contents mem (own xs) = xs

-- append(dst, xs...): past the capacity it allocates.
abbrev pub append_dst : List ℕ → Dst → List ℕ → Dst
append_dst mem (shared n) xs =
    if leb (n + length xs) (length mem) then shared (n + length xs) else own (take n mem ++ xs)
append_dst mem (own ys) xs = own (ys ++ xs)

abbrev pub append_mem : List ℕ → Dst → List ℕ → List ℕ
append_mem mem (shared n) xs = if leb (n + length xs) (length mem) then copy_at mem n xs else mem
append_mem mem (own ys) xs = mem

pub length-copy_at :
    (mem : List ℕ) (n : ℕ) (xs : List ℕ)
    → n + length xs ≤ length mem
    → length (copy_at mem n xs) ≡ length mem
length-copy_at mem n xs h = omega (
  arith,
  length-append (take n mem ++ xs) (drop (n + length xs) mem),
  length-append (take n mem) xs,
  length-take n mem,
  length-drop (n + length xs) mem,
  h,
)

length-start : (mem : List ℕ) (n : ℕ) → n ≤ length mem → n ≡ length (take n mem)
length-start mem n h = omega (arith, length-take n mem, h)

take-copy_at :
    (mem : List ℕ) (n : ℕ) (xs : List ℕ)
    → n ≤ length mem
    → take (n + length xs) (copy_at mem n xs) ≡ take n mem ++ xs
take-copy_at mem n xs h =
    take-append (n + length xs) (take n mem ++ xs) (drop (n + length xs) mem)
      (omega (arith, length-append (take n mem) xs, length-start mem n h))

take-take : (m n : ℕ) (xs : List ℕ) → m ≤ n → take m (take n xs) ≡ take m xs
take-take zero n xs h = refl
take-take (suc m) zero xs h = absurd (omega arith)
take-take (suc m) (suc n) [] h = refl
take-take (suc m) (suc n) (x ∷ xs) h = ap (λ t. x ∷ t) (take-take m n xs (omega arith))

pub take-copy_at_before :
    (mem : List ℕ) (m n : ℕ) (xs : List ℕ)
    → m ≤ n
    → n ≤ length mem
    → take m (copy_at mem n xs) ≡ take m mem
take-copy_at_before mem m n xs h g =
    ap (take m) (append_assoc (take n mem) xs (drop (n + length xs) mem))
    ∙ take-append_le m (take n mem) (xs ++ drop (n + length xs) mem)
        (omega (arith, length-start mem n g))
    ∙ take-take m n mem h

pub drop-copy_at_from :
    (mem : List ℕ) (n : ℕ) (xs : List ℕ)
    → n ≤ length mem
    → drop n (copy_at mem n xs) ≡ xs ++ drop (n + length xs) mem
drop-copy_at_from mem n xs h =
    ap (drop n) (append_assoc (take n mem) xs (drop (n + length xs) mem))
    ∙ drop-append n (take n mem) (xs ++ drop (n + length xs) mem) (length-start mem n h)

drop-copy_at :
    (mem : List ℕ) (n j : ℕ) (xs : List ℕ)
    → n + length xs ≤ length mem
    → n + length xs ≤ j
    → drop j (copy_at mem n xs) ≡ drop j mem
drop-copy_at mem n j xs h g =
    let len : length (take n mem ++ xs) ≡ n + length xs =
      omega (arith, length-append (take n mem) xs, length-start mem n (omega (arith, h))) in
    drop-append_ge j (take n mem ++ xs) (drop (n + length xs) mem) (omega (arith, len, g))
    ∙ drop-drop (j - length (take n mem ++ xs)) (n + length xs) mem
    ∙ ap (λ k. drop k mem) {y = j} (omega (arith, len, g))

-- A shared dst ends at most at a bound; only a grown one is an array of its own.
abbrev pub Fine : Bool → Dst → ℕ → Type 0
Fine grown (shared n) bound = (grown ≡ false) × (n ≤ bound)
Fine grown (own xs) bound = grown ≡ true

pub record Appended (grown : Bool) (mem : List ℕ) (dst : Dst) (xs : List ℕ) (bound : ℕ)
    : Type 0 where
  pub same_length : length (append_mem mem dst xs) ≡ length mem
  pub appended : contents (append_mem mem dst xs) (append_dst mem dst xs) ≡ contents mem dst ++ xs
  pub fine : Fine grown (append_dst mem dst xs) bound
  pub kept : (j : ℕ) → bound ≤ j → drop j (append_mem mem dst xs) ≡ drop j mem

pub append-Appended :
    (grown : Bool) (mem : List ℕ) (dst : Dst) (xs : List ℕ) (low bound : ℕ)
    → Fine grown dst low
    → (grown ≡ true) ⊎ ((low + length xs ≤ bound) × (bound ≤ length mem))
    → Appended grown mem dst xs bound
append-Appended grown mem (own ys) xs low bound fine room = record {
  same_length = refl;
  appended = refl;
  fine = fine;
  kept = λ j h. refl;
}
append-Appended grown mem (shared n) xs low bound fine (inl g) =
    let no : true ≡ false = sym g ∙ fine.0 in absurd (ground (arith, no))
append-Appended grown mem (shared n) xs low bound fine (inr room) =
    let fits : leb (n + length xs) (length mem) ≡ true = ground (arith, fine.1, room.0, room.1) in
    let le : n + length xs ≤ length mem = omega (arith, fine.1, room.0, room.1) in
    record {
      same_length = rw fits (length-copy_at mem n xs le);
      appended = rw fits (take-copy_at mem n xs (omega (arith, le)));
      fine = rw fits (fine.0, omega (arith, fine.1, room.0));
      kept = λ j h. rw fits (drop-copy_at mem n j xs le (omega (arith, fine.1, room.0, h)));
    }
