-- ===== src/Ziputil/Bounds.antt =====
-- The bounds that `readDirectoryEnd` and `ZipTOCSize` of ziputil/ziputil.go guard.
use go.Common.{
  ℕ, suc, ◌+◌, ◌-◌, ◌%◌, ◌^◌, ◌≤◌, ◌<◌, ◌≡◌, refl, sym, ap, ◌∙◌, subst, arith, min, Bool, Option,
  none, some, List, [], ◌∷◌, ◌++◌, take, drop, replicate, length, ◌⊎◌, inl, inr, Option-cases,
  take_of_le, length-drop, length-append, length-replicate, append-nil,
}
use go.Readerutil.Parts.{SizeReaderAt, zero_size_reader_at, bytes_reader}
use go.Readerutil.Parts.Loop.{Holds, bytes_reader-IsPart, Holds-IsPart, zero_size_reader_at-Holds}
use go.Readerutil.Parts.Whole.{IsSearch, Sources, multi_source-Holds, multi_source-Holds_last}
use go.Ziputil.ReadBuf.{ZipErr, ok, fail, Result-cases}
use go.Ziputil.End.{
  DirectoryEnd, find_directory64_end, read_directory64_end, sub64, find_base, read_directory_end,
  look_in_last, signature_from, find_end, widen_end, read_end,
}
use go.Ziputil.End.Search.{find_signature_in_block, search_down-Last}
use go.Ziputil.Toc.{zip_toc_size, suffix_reader}

-- What `findSignatureInBlock` makes of the last `n` bytes.
unfoldable pub found_in_last : ℕ → List ℕ → Option (List ℕ × ℕ)
unfolding signature_from
found_in_last n all = signature_from (length all - n) (drop (length all - n) all)

pub look_in_last-Holds :
    (all : List ℕ) (r : SizeReaderAt) (wanted : ℕ)
    → Holds all r
    → look_in_last r (length all) wanted ≡ ok (found_in_last (min wanted (length all)) all)
unfolding look_in_last found_in_last
look_in_last-Holds all r wanted h =
    let n = min wanted (length all) in
    let back = drop (length all - n) all in
    let l : length back ≡ n = length-drop (length all - n) all ∙ omega arith in
    let whole : take n back ≡ back = take_of_le n back (omega (arith, l)) in
    rw (h.reads n (length all - n) (omega arith), whole, l, minus_self n, append-nil back) refl
  where
    minus_self : (n : ℕ) → n - n ≡ 0
    minus_self n = omega arith

-- The directory's first byte, where the base offset is known.
pub find_base-start :
    (r : SizeReaderAt) (size : ℕ) (d : DirectoryEnd) (end_offset base : ℕ)
    → size < 2 ^ 63
    → end_offset < 2 ^ 63
    → find_base r size d end_offset ≡ ok base
    → (d.directory_size ≤ end_offset)
      × ((base + d.directory_offset) % 2 ^ 64 < size)
      × ((base + d.directory_offset) % 2 ^ 64 ≤ end_offset - d.directory_size)
unfolding find_base sub64
find_base-start r size d end_offset base a b e = ground (arith, a, b, e)

found_in_last-below :
    (n : ℕ) (all : List ℕ) (buf : List ℕ) (off : ℕ)
    → found_in_last n all ≡ some (buf, off)
    → off + 22 ≤ length all
unfolding found_in_last signature_from find_signature_in_block
found_in_last-below n all buf off e =
    elim (Option-cases (find_signature_in_block (drop (length all - n) all))) [
      | inl nothing ↦ absurd (ground (arith, e, nothing))
      | inr (p, there) ↦
          let last =
            search_down-Last (suc (length (drop (length all - n) all)) - 22)
              (drop (length all - n) all) p there in
          let same : length all - n + p ≡ off = ground (arith, e, there) in
          omega (arith, same, last.below, length-drop (length all - n) all)
    ]

find_end-below :
    (all : List ℕ) (r : SizeReaderAt) (buf : List ℕ) (off : ℕ)
    → Holds all r
    → find_end r (length all) ≡ ok (buf, off)
    → off + 22 ≤ length all
unfolding find_end
find_end-below all r buf off h e =
    let a = look_in_last-Holds all r 1024 h in
    let b = look_in_last-Holds all r 66560 h in
    elim (Option-cases (found_in_last (min 1024 (length all)) all)) [
      | inr ((buf1, off1), there) ↦
          subst (λ o. o + 22 ≤ length all) (ground (arith, a, there, e))
            (found_in_last-below (min 1024 (length all)) all buf1 off1 there)
      | inl nothing ↦ elim (Option-cases (found_in_last (min 66560 (length all)) all)) [
        | inr ((buf1, off1), there) ↦
            subst (λ o. o + 22 ≤ length all) (ground (arith, a, b, nothing, there, e))
              (found_in_last-below (min 66560 (length all)) all buf1 off1 there)
        | inl nothing1 ↦ absurd (ground (arith, a, b, nothing, nothing1, e))
      ]
    ]

-- `suffix_reader` holds the footer behind zeros.
pub suffix_reader-Holds :
    (search : ℕ → (ℕ → Bool) → ℕ) (is_search : IsSearch search) (size : ℕ) (footer : List ℕ)
    → size < 2 ^ 63
    → length footer ≤ size
    → Holds (replicate (size - length footer) 0 ++ footer) (suffix_reader search size footer)
unfolding suffix_reader Sources bytes_reader
suffix_reader-Holds search is_search size [] b l =
    let n = size - length {A = ℕ} [] in
    let len = length-replicate {A = ℕ} n 0 in
    subst (λ t. Holds t (suffix_reader search size [])) (sym (append-nil (replicate n 0)))
      (multi_source-Holds_last search is_search (replicate n 0) (zero_size_reader_at n)
        (bytes_reader []) (Holds-IsPart _ _ (zero_size_reader_at-Holds n)) refl
        (omega (arith, len)))
suffix_reader-Holds search is_search size (x ∷ xs) b l =
    let footer = x ∷ xs in
    let n = size - length footer in
    subst (λ t. Holds (replicate n 0 ++ t) (suffix_reader search size footer)) (append-nil footer)
      (multi_source-Holds search is_search (replicate n 0 ∷ footer ∷ [])
        (zero_size_reader_at n ∷ bytes_reader footer ∷ [])
        (Holds-IsPart _ _ (zero_size_reader_at-Holds n), (bytes_reader-IsPart x xs, tt))
        (omega (
          arith,
          length-append (replicate n 0) (footer ++ []),
          length-replicate {A = ℕ} n 0,
          ap length (append-nil footer),
        )))

widen_end-below :
    (r : SizeReaderAt) (d d1 : DirectoryEnd) (off off1 : ℕ)
    → off < 2 ^ 63
    → widen_end r d off ≡ ok (d1, off1)
    → off1 < 2 ^ 63
unfolding widen_end
widen_end-below r d d1 off off1 b e = elim (Result-cases (find_directory64_end r off)) [
  | inr (x, failed) ↦ ground (arith, failed, e, b)
  | inl (none, absent) ↦ ground (arith, absent, e, b)
  | inl (some p, there) ↦ elim (Result-cases (read_directory64_end r p d)) [
    | inr (x, failed) ↦ ground (arith, there, failed, e, b)
    | inl (d2, got) ↦ ground (arith, there, got, e, b)
  ]
]

-- The bytes of the reader of `ZipTOCSize` and `ParseTOC`.
abbrev pub padded : ℕ → List ℕ → List ℕ
padded size footer = replicate (size - length footer) 0 ++ footer

pub length-padded :
    (size : ℕ) (footer : List ℕ) → length footer ≤ size → length (padded size footer) ≡ size
length-padded size footer l =
    length-append (replicate (size - length footer) 0) footer
    ∙ omega (arith, l, length-replicate {A = ℕ} (size - length footer) 0)

-- Where a directory is found, its first byte lies in the file.
pub read_directory_end-start :
    (all : List ℕ) (r : SizeReaderAt) (d : DirectoryEnd) (base : ℕ)
    → Holds all r
    → length all < 2 ^ 63
    → read_directory_end r (length all) ≡ ok (d, base)
    → (base + d.directory_offset) % 2 ^ 64 < length all
unfolding read_directory_end
read_directory_end-start all r d base h b e = elim (Result-cases (find_end r (length all))) [
  | inr (x, failed) ↦ absurd (ground (arith, failed, e))
  | inl ((buf, off), found) ↦ elim (Option-cases (read_end buf)) [
    | inl nothing ↦ absurd (ground (arith, found, nothing, e))
    | inr (d0, there) ↦ elim (Result-cases (widen_end r d0 off)) [
      | inr (x, failed) ↦ absurd (ground (arith, found, there, failed, e))
      | inl ((d1, off1), wide) ↦ elim (Result-cases (find_base r (length all) d1 off1)) [
        | inr (x, failed) ↦ absurd (ground (arith, found, there, wide, failed, e))
        | inl (base1, based) ↦
            let below : off < 2 ^ 63 = omega (arith, find_end-below all r buf off h found, b) in
            let start =
              find_base-start r (length all) d1 off1 base1 b
                (widen_end-below r d0 d1 off off1 below wide) based in
            let same : (d1 ≡ d) × (base1 ≡ base) = ground (arith, found, there, wide, based, e) in
            ground (arith, start.1, same)
      ]
    ]
  ]
]

-- With a `sort.Search` that does what it documents, for a file of less than 2 ^ 63 bytes and no longer
-- footer, `ZipTOCSize` either reports false, and then `readDirectoryEnd` fails, or reports a size that is
-- positive and at most the file's: the code's last check never fires.
pub zip_toc_size_bounds :
    (search : ℕ → (ℕ → Bool) → ℕ) (is_search : IsSearch search) (size : ℕ) (footer : List ℕ)
    → size < 2 ^ 63
    → length footer ≤ size
    → ((x : ZipErr) × (read_directory_end (suffix_reader search size footer) size ≡ fail x)
        × (zip_toc_size search size footer ≡ none))
      ⊎ ((toc : ℕ) × (zip_toc_size search size footer ≡ some toc) × (0 < toc) × (toc ≤ size))
unfolding zip_toc_size sub64
zip_toc_size_bounds search is_search size footer b l =
    elim (Result-cases (read_directory_end (suffix_reader search size footer) size)) [
      | inr (x, failed) ↦ inl (x, failed, ground (arith, failed))
      | inl ((d, base), got) ↦
          let h = suffix_reader-Holds search is_search size footer b l in
          let e = length-padded size footer l in
          let start : (base + d.directory_offset) % 2 ^ 64 < size = omega (
            arith,
            e,
            read_directory_end-start (padded size footer) (suffix_reader search size footer) d base
                h (omega (arith, e, b))
                (ap (read_directory_end (suffix_reader search size footer)) e ∙ got),
          ) in
          inr (
            size - (base + d.directory_offset) % 2 ^ 64,
            ground (arith, got, start, l, b),
            omega (arith, start),
            omega arith,
          )
    ]
