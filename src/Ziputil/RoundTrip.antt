-- ===== src/Ziputil/RoundTrip.antt =====
-- `ZipTOCSize` and `ParseTOC` of ziputil/ziputil.go on a written archive, of which only the end is known.
use go.Common.{
  ℕ, suc, ◌+◌, ◌-◌, ◌%◌, ◌^◌, ◌≤◌, ◌<◌, ◌≡◌, refl, ap, ap₂, sym, ◌∙◌, subst, arith, Bool, none,
  some, List, [], ◌∷◌, ◌++◌, take, drop, length, replicate, map, length-append, drop-append,
  drop-append_le, length-drop, length-replicate, append_assoc, take_of_le,
}
use go.Readerutil.Parts.{SizeReaderAt, eof}
use go.Readerutil.Parts.Loop.{Holds}
use go.Readerutil.Parts.Whole.{IsSearch}
use go.Ziputil.ReadBuf.{ok, put}
use go.Ziputil.End.{DirectoryEnd, sub64, read_directory_end, section}
use go.Ziputil.Toc.{read_headers, read_toc, suffix_reader, zip_toc_size, parse_toc}
use go.Ziputil.Bounds.{suffix_reader-Holds, padded, length-padded}
use go.Ziputil.Written.{
  header_bytes, fixed_bytes, Entry, Plain, directory_bytes, end_bytes, archive_bytes, read_back,
}
use go.Ziputil.ReadBack.{read_headers-directory_bytes}
use go.Ziputil.EndFound.{length-end, read_directory_end-plain}

length-map : {A B : Type 0} (f : A → B) (xs : List A) → length (map f xs) ≡ length xs
length-map f [] = refl
length-map f (x ∷ xs) = ap suc (length-map f xs)

length-directory_bytes : (es : List Entry) → length es ≤ length (directory_bytes es)
unfolding directory_bytes fixed_bytes put
length-directory_bytes [] = omega arith
length-directory_bytes (e ∷ es) = omega (
  arith,
  length-append (header_bytes e) (directory_bytes es),
  length-append (fixed_bytes e) (e.name ++ e.comment),
  length-directory_bytes es,
)

module _ (contents : List ℕ) (es : List Entry) (comment : List ℕ)
    (plain : Plain contents es comment) where
  abbrev end_of : List ℕ
  end_of = end_bytes (length es) (length (directory_bytes es)) (length contents) comment

  abbrev end_record : DirectoryEnd
  end_record = record {
    disk_nbr = 0;
    dir_disk_nbr = 0;
    dir_records_this_disk = length es;
    directory_records = length es;
    directory_size = length (directory_bytes es);
    directory_offset = length contents;
    comment_len = length comment;
    comment = comment;
  }

  front_of : ℕ → List ℕ
  front_of k = replicate k 0 ++ drop k (contents ++ directory_bytes es)

  length-front_of :
      (k : ℕ)
      → k ≤ length contents + length (directory_bytes es)
      → length (front_of k) ≡ length contents + length (directory_bytes es)
  unfolding front_of
  length-front_of k h =
      let inner = contents ++ directory_bytes es in
      length-append (replicate k 0) (drop k inner)
      ∙ omega (
        arith,
        h,
        length-replicate {A = ℕ} k 0,
        length-drop k inner,
        length-append contents (directory_bytes es),
      )

  archive-split : archive_bytes contents es comment ≡ contents ++ directory_bytes es ++ end_of
  unfolding archive_bytes
  archive-split = sym (append_assoc contents (directory_bytes es) end_of)

  directory-known :
      (k : ℕ)
      → k ≤ length contents
      → drop (length contents) (front_of k ++ end_of) ≡ directory_bytes es ++ end_of
  unfolding front_of
  directory-known k h =
      let zeros = replicate k 0 in
      let dir = directory_bytes es in
      let split : zeros ++ drop k (contents ++ dir) ++ end_of
          ≡ zeros ++ drop k contents ++ (dir ++ end_of) =
        ap (λ t. zeros ++ t ++ end_of) (drop-append_le k contents dir h)
        ∙ ap (λ t. t ++ end_of) (sym (append_assoc zeros (drop k contents) dir))
        ∙ append_assoc (zeros ++ drop k contents) dir end_of in
      ap (drop (length contents)) split
      ∙ drop-append (length contents) (zeros ++ drop k contents) (dir ++ end_of) (
          omega (
            arith,
            h,
            length-append zeros (drop k contents),
            length-replicate {A = ℕ} k 0,
            length-drop k contents,
          ))

  headers-known :
      (fuel : ℕ)
      → length es < fuel
      → read_headers fuel 0 (record { bytes = directory_bytes es ++ end_of; fault = eof })
        ≡ ok (map read_back es)
  unfolding end_bytes
  headers-known fuel l =
      read_headers-directory_bytes fuel es 101010256 _ plain.entries l (ground arith) (ground arith)

  toc-known :
      (r : SizeReaderAt) (all : List ℕ)
      → Holds all r
      → drop (length contents) all ≡ directory_bytes es ++ end_of
      → length all < 2 ^ 63
      → read_toc r (length all) 0 (length contents) (length es) comment
        ≡ ok (record { files = map read_back es; base_offset = 0; comment = comment })
  unfolding read_toc section
  toc-known r all h e b =
      let n = length all - length contents in
      let rest = directory_bytes es ++ end_of in
      let l : length rest ≡ n = ap length (sym e) ∙ length-drop (length contents) all in
      let le = length-append (directory_bytes es) end_of in
      let start : (0 + length contents) % 2 ^ 64 ≡ length contents = omega (arith, plain.start) in
      let got : r.read_at n (length contents) ≡ (rest, none) =
        h.reads n (length contents) (omega (arith, l, le, length-end contents es comment plain))
        ∙ ap (λ t. (take n t, none)) e
        ∙ ap (λ t. (t, none)) (take_of_le n rest (omega (arith, l))) in
      let heads =
        headers-known (suc (length rest)) (omega (arith, le, length-directory_bytes es)) in
      ground (arith, start, plain.start, got, heads, length-map read_back es)

  -- What is known of the file, from the `k`-th byte on, behind zeros.
  padded-archive :
      (k : ℕ)
      → k ≤ length contents + length (directory_bytes es)
      → let file = archive_bytes contents es comment in
        padded (length file) (drop k file) ≡ front_of k ++ end_of
  unfolding front_of
  padded-archive k h =
      let file = archive_bytes contents es comment in
      let inner = contents ++ directory_bytes es in
      let l = length-append contents (directory_bytes es) in
      let whole : file ≡ inner ++ end_of = archive-split in
      let n = ap length whole ∙ length-append inner end_of in
      let tail : drop k file ≡ drop k inner ++ end_of =
        ap (drop k) whole ∙ drop-append_le k inner end_of (omega (arith, h, l)) in
      ap₂ (λ i t. replicate i 0 ++ t) (omega (arith, n, length-drop k file, h, l)) tail
      ∙ sym (append_assoc (replicate k 0) (drop k inner) end_of)

  module _ (search : ℕ → (ℕ → Bool) → ℕ) (is_search : IsSearch search) where
    -- The reader of the two functions, on the file from its `k`-th byte on.
    reader-Holds :
        (k : ℕ)
        → k ≤ length contents + length (directory_bytes es)
        → let file = archive_bytes contents es comment in
          Holds (front_of k ++ end_of) (suffix_reader search (length file) (drop k file))
          × (length file ≡ length (front_of k ++ end_of))
    reader-Holds k h =
        let file = archive_bytes contents es comment in
        let same = padded-archive k h in
        let l = length-drop k file in
        let total =
          sym (length-padded (length file) (drop k file) (omega (arith, l))) ∙ ap length same in
        let parts = length-append (front_of k) end_of in
        let small : length file < 2 ^ 63 = omega (
          arith,
          total,
          parts,
          length-front_of k h,
          length-end contents es comment plain,
          plain.start,
          plain.small,
          plain.comment_fits,
        ) in
        (
          subst (λ all. Holds all (suffix_reader search (length file) (drop k file))) same
              (suffix_reader-Holds search is_search (length file) (drop k file) small
                (omega (arith, l))),
          total,
        )

    known :
        (k : ℕ)
        → k ≤ length contents + length (directory_bytes es)
        → let file = archive_bytes contents es comment in
          read_directory_end (suffix_reader search (length file) (drop k file)) (length file)
          ≡ ok (end_record, 0)
    known k h =
        let file = archive_bytes contents es comment in
        let (holds, total) = reader-Holds k h in
        ap (read_directory_end (suffix_reader search (length file) (drop k file))) total
        ∙ read_directory_end-plain contents es comment plain (front_of k)
            (suffix_reader search (length file) (drop k file)) holds (length-front_of k h)

    -- With a `sort.Search` that does what it documents, `ZipTOCSize` answers the size of the file from the
    -- start of the directory on, given any end of an archive that holds the end of its directory: one without
    -- zip64 records and without extra fields in its directory headers, and with no prefix before its data. Every field of
    -- the headers fits its width, sizes and offsets are not the largest number; there are fewer than
    -- 65535 entries, the directory is smaller than 2 ^ 32 bytes and does not take 65535, it begins before
    -- 2 ^ 32 - 1, the comment is shorter than 2 ^ 16 bytes, and no later place in the end record, its
    -- comment included, looks like the start of an end record.
    pub zip_toc_size-archive_bytes :
        (k : ℕ)
        → k ≤ length contents + length (directory_bytes es)
        → let file = archive_bytes contents es comment in
          zip_toc_size search (length file) (drop k file) ≡ some (length file - length contents)
    unfolding zip_toc_size sub64
    zip_toc_size-archive_bytes k h =
        let file = archive_bytes contents es comment in
        let (_, total) = reader-Holds k h in
        let parts = length-append (front_of k) end_of in
        let front = length-front_of k h in
        ground (
          arith,
          known k h,
          total,
          parts,
          front,
          length-end contents es comment plain,
          plain.start,
          plain.small,
          plain.comment_fits,
          length-drop k file,
        )

    -- With a `sort.Search` that does what it documents, `ParseTOC` gives the entries of an archive and its
    -- comment, given any end of the archive that holds its directory: one without
    -- zip64 records and without extra fields in its directory headers, and with no prefix before its data. Every field of
    -- the headers fits its width, sizes and offsets are not the largest number; there are fewer than
    -- 65535 entries, the directory is smaller than 2 ^ 32 bytes and does not take 65535, it begins before
    -- 2 ^ 32 - 1, the comment is shorter than 2 ^ 16 bytes, and no later place in the end record, its
    -- comment included, looks like the start of an end record.
    pub parse_toc-archive_bytes :
        (k : ℕ)
        → k ≤ length contents
        → let file = archive_bytes contents es comment in
          parse_toc search (length file) (drop k file)
          ≡ ok (record { files = map read_back es; base_offset = 0; comment = comment })
    unfolding parse_toc
    parse_toc-archive_bytes k h =
        let file = archive_bytes contents es comment in
        let more : k ≤ length contents + length (directory_bytes es) = omega (arith, h) in
        let (holds, total) = reader-Holds k more in
        let r = suffix_reader search (length file) (drop k file) in
        let toc = toc-known r (front_of k ++ end_of) holds (directory-known k h) (
          omega (
            arith,
            length-append (front_of k) end_of,
            length-front_of k more,
            length-end contents es comment plain,
            plain.start,
            plain.small,
            plain.comment_fits,
          )) in
        let toc1 = ap (λ n. read_toc r n 0 (length contents) (length es) comment) total ∙ toc in
        ground (arith, known k more, toc1, length-drop k file)
