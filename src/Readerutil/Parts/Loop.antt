-- ===== src/Readerutil/Parts/Loop.antt =====
-- The loop of `ReadAt` in readerutil/multireaderat.go over parts that give their bytes.
use go.Common.{
  ℕ, zero, suc, ◌+◌, ◌-◌, ◌≤◌, ◌<◌, ◌≡◌, refl, sym, ap, ◌∙◌, arith, min, true, none, List, [], ◌∷◌,
  ◌++◌, ◌==◌, leb, if◌then◌else◌, length, take, drop, replicate, Bool-cases, ◌⊎◌, inl, inr,
  append-nil, append_assoc, length-take, length-drop, take-append_le, take-append_ge,
  drop-append_le, take_of_le, drop_of_le, length-replicate,
}
use go.Readerutil.Parts.{
  SizeReaderAt, OffsetAndSource, read_parts, finish, zero_size_reader_at, bytes_reader,
}

-- What a source of the given bytes promises: its size, and every read inside it, without an error.
pub record Holds (xs : List ℕ) (s : SizeReaderAt) : Type 0 where
  pub sized : s.size ≡ length xs
  pub reads : (k off : ℕ) → off + k ≤ length xs → s.read_at k off ≡ (take k (drop off xs), none)

-- What is asked of a part: its size, and a read inside it gives the bytes there without an error, where it
-- begins before the end. A source may give `io.EOF` with its last bytes, as `io.ReaderAt` allows; such
-- a one is no part of this kind.
pub record IsPart (xs : List ℕ) (s : SizeReaderAt) : Type 0 where
  pub sized : s.size ≡ length xs
  pub reads :
      (k off : ℕ)
      → off + k ≤ length xs
      → (off ≡ 0) ⊎ (off < length xs)
      → s.read_at k off ≡ (take k (drop off xs), none)

pub Holds-IsPart : (xs : List ℕ) (s : SizeReaderAt) → Holds xs s → IsPart xs s
Holds-IsPart xs s h = record { sized = h.sized; reads = λ k off l w. h.reads k off l }

-- A reader of no bytes is none: it gives `io.EOF` to every read.
pub bytes_reader-IsPart : (x : ℕ) (xs : List ℕ) → IsPart (x ∷ xs) (bytes_reader (x ∷ xs))
unfolding bytes_reader
bytes_reader-IsPart x xs = record {
  sized = refl;
  reads = λ k off h w.
      let before : off < length (x ∷ xs) = elim w [ inl e ↦ omega (arith, e) | inr l ↦ l ] in
      ground (arith, h, before);
}

take-replicate : (k n : ℕ) → k ≤ n → take {A = ℕ} k (replicate n 0) ≡ replicate {A = ℕ} k 0
take-replicate zero n h = refl
take-replicate (suc k) zero h = absurd (omega arith)
take-replicate (suc k) (suc n) h = ap (λ t. 0 ∷ t) (take-replicate k n (omega arith))

drop-replicate : (k n : ℕ) → k ≤ n → drop {A = ℕ} k (replicate n 0) ≡ replicate {A = ℕ} (n - k) 0
drop-replicate zero n h = ap (λ i. replicate {A = ℕ} i 0) (omega arith)
drop-replicate (suc k) zero h = absurd (omega arith)
drop-replicate (suc k) (suc n) h =
    drop-replicate k n (omega arith) ∙ ap (λ i. replicate {A = ℕ} i 0) (omega arith)

pub zero_size_reader_at-Holds : (n : ℕ) → Holds (replicate n 0) (zero_size_reader_at n)
unfolding zero_size_reader_at
zero_size_reader_at-Holds n = record {
  sized = sym (length-replicate {A = ℕ} n 0);
  reads = λ k off h.
      ground
        (arith, length-replicate {A = ℕ} n 0, drop-replicate off n, take-replicate k (n - off));
}

-- Each part holds its bytes.
unfoldable pub AllHold : List (List ℕ) → List OffsetAndSource → Type 0
AllHold [] [] = Unit
AllHold (c ∷ cs) (p ∷ ps) = IsPart c p.source × AllHold cs ps
AllHold _ _ = ⊥

abbrev pub concat : List (List ℕ) → List ℕ
concat [] = []
concat (c ∷ cs) = c ++ concat cs

-- The skip lies in the first part, before its end.
abbrev pub Inside : ℕ → List (List ℕ) → Type 0
Inside skip [] = Unit
Inside skip (c ∷ _) = (skip ≡ 0) ⊎ (skip < length c)

-- With no room left in the buffer the loop ends.
pub read_parts-full :
    (fuel want skip : ℕ) (ps : List OffsetAndSource) (out : List ℕ)
    → read_parts (suc fuel) want ps 0 skip out ≡ finish want out
unfolding read_parts
read_parts-full fuel want skip [] out = refl
read_parts-full fuel want skip (p ∷ ps) out = refl

-- A round, by what the part gives.
read_parts-round :
    (fuel want k skip : ℕ) (p : OffsetAndSource) (ps : List OffsetAndSource) (out got : List ℕ)
    → p.source.read_at (min (suc k) (p.source.size - skip)) skip ≡ (got, none)
    → read_parts (suc fuel) want (p ∷ ps) (suc k) skip out
      ≡ read_parts fuel want
          (if length got + skip == p.source.size then ps else p ∷ ps)
          (suc k - length got)
          0
          (out ++ got)
unfolding read_parts
read_parts-round fuel want k skip p ps out got e =
    rw (read_parts, ap (λ r. r.1) e, ap (λ r. r.0) e) refl

-- A first part with all the bytes wanted is enough, whatever parts follow.
pub read_parts-first :
    (fuel want k skip : ℕ) (c : List ℕ) (p : OffsetAndSource) (ps : List OffsetAndSource)
    → IsPart c p.source
    → skip < length c
    → skip + k ≤ length c
    → read_parts (suc (suc fuel)) want (p ∷ ps) k skip [] ≡ finish want (take k (drop skip c))
unfolding read_parts
read_parts-first fuel want zero skip c p ps h i l = read_parts-full (suc fuel) want skip (p ∷ ps) []
read_parts-first fuel want (suc k) skip c p ps h i l =
    let n : min (suc k) (p.source.size - skip) ≡ suc k = omega (arith, h.sized, l) in
    let got = take (suc k) (drop skip c) in
    let len : length got ≡ suc k =
      omega (arith, length-take (suc k) (drop skip c), length-drop skip c, l) in
    let rest = if length got + skip == p.source.size then ps else p ∷ ps in
    read_parts-round (suc fuel) want k skip p ps [] got
      (ap (λ t. p.source.read_at t skip) n ∙ h.reads (suc k) skip (omega (arith, l)) (inr i))
    ∙ ap (λ t. read_parts (suc fuel) want rest t 0 got) {y = 0} (omega (arith, len))
    ∙ read_parts-full fuel want 0 rest got

-- Over parts that hold their bytes the loop gives those of all of them, one after the other, from
-- `skip` on.
pub read_parts_lem :
    (fuel want k skip : ℕ) (cs : List (List ℕ)) (ps : List OffsetAndSource) (out : List ℕ)
    → AllHold cs ps
    → Inside skip cs
    → length ps + 1 < fuel
    → read_parts fuel want ps k skip out ≡ finish want (out ++ take k (drop skip (concat cs)))
unfolding AllHold read_parts
read_parts_lem zero want k skip cs ps out a i f = absurd (omega arith)
read_parts_lem (suc fuel) want zero skip cs ps out a i f =
    read_parts-full fuel want skip ps out ∙ ap (finish want) (sym (append-nil out))
read_parts_lem (suc fuel) want (suc k) skip [] [] out a i f = ap (finish want) (
    sym (append-nil out)
    ∙ ap (λ t. out ++ t) (sym (ap (take (suc k)) (drop_of_le skip [] (omega arith)))))
read_parts_lem (suc fuel) want (suc k) skip [] (_ ∷ _) out a i f = absurd a
read_parts_lem (suc fuel) want (suc k) skip (_ ∷ _) [] out a i f = absurd a
read_parts_lem (suc fuel) want (suc k) skip (c ∷ cs) (p ∷ ps) out (h, a) w f =
    let i : skip ≤ length c = elim w [ inl e ↦ omega (arith, e) | inr l ↦ omega (arith, l) ] in
    elim (Bool-cases (leb (suc k) (length c - skip))) [
      | inl inside ↦
          let g : suc k ≤ length c - skip = ground (arith, inside) in
          let n : min (suc k) (p.source.size - skip) ≡ suc k = omega (arith, h.sized) in
          let got = take (suc k) (drop skip c) in
          let l : length got ≡ suc k =
            omega (arith, length-take (suc k) (drop skip c), length-drop skip c) in
          let same : take (suc k) (drop skip (c ++ concat cs)) ≡ got =
            ap (take (suc k)) (drop-append_le skip c (concat cs) i)
            ∙ take-append_le (suc k) (drop skip c) (concat cs)
                (omega (arith, length-drop skip c)) in
          read_parts-round fuel want k skip p ps out got
            (ap (λ t. p.source.read_at t skip) n ∙ h.reads (suc k) skip (omega arith) w)
          ∙ ended fuel _ (suc k - length got) (out ++ got) (omega (arith, l)) (omega arith)
          ∙ ap (λ t. finish want (out ++ t)) (sym same)
      | inr beyond ↦
          let g : length c - skip ≤ k = ground (arith, beyond) in
          let m = length c - skip in
          let n : min (suc k) (p.source.size - skip) ≡ m = omega (arith, h.sized) in
          let l : length (drop skip c) ≡ m = length-drop skip c in
          let whole = take_of_le m (drop skip c) (omega (arith, l)) in
          let last : (length (drop skip c) + skip == p.source.size) ≡ true =
            ground (arith, l, h.sized, i) in
          let split : take (suc k) (drop skip (c ++ concat cs))
              ≡ drop skip c ++ take (suc k - length (drop skip c)) (concat cs) =
            ap (take (suc k)) (drop-append_le skip c (concat cs) i)
            ∙ take-append_ge (suc k) (drop skip c) (concat cs) (omega (arith, l)) in
          read_parts-round fuel want k skip p ps out (drop skip c) (
            ap (λ t. p.source.read_at t skip) n
            ∙ h.reads m skip (omega arith) w
            ∙ ap (λ t. (t, none)) whole)
          ∙ ap
              (λ b.
                read_parts fuel want (if b then ps else p ∷ ps) (suc k - length (drop skip c)) 0
                  (out ++ drop skip c))
              last
          ∙ read_parts_lem fuel want (suc k - length (drop skip c)) 0 cs ps (out ++ drop skip c) a
              (start cs) (omega arith)
          ∙ ap (finish want) (
              append_assoc out (drop skip c) (take (suc k - length (drop skip c)) (concat cs))
              ∙ ap (λ t. out ++ t) (sym split))
    ]
  where
    start : (cs' : List (List ℕ)) → Inside 0 cs'
    start [] = tt
    start (c' ∷ _) = inl refl

    ended :
        (n : ℕ) (ps' : List OffsetAndSource) (left : ℕ) (out' : List ℕ)
        → left ≡ 0
        → 0 < n
        → read_parts n want ps' left 0 out' ≡ finish want out'
    ended zero ps' left out' e h = absurd (omega arith)
    ended (suc n) ps' left out' e h =
        ap (λ t. read_parts (suc n) want ps' t 0 out') e ∙ read_parts-full n want 0 ps' out'
