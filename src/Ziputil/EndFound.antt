-- ===== src/Ziputil/EndFound.antt =====
-- `readDirectoryEnd` of ziputil/ziputil.go on the end of a written archive, whatever stands before it.
use go.Common.{
  ℕ, ◌+◌, ◌-◌, ◌%◌, ◌^◌, ◌≤◌, ◌<◌, ◌≡◌, ap, ◌∙◌, arith, min, some, List, ◌++◌, length, leb,
  length-append, Bool-cases, inl, inr,
}
use go.Readerutil.Parts.{SizeReaderAt}
use go.Readerutil.Parts.Loop.{Holds}
use go.Ziputil.ReadBuf.{ok, put}
use go.Ziputil.End.{DirectoryEnd, sub64, find_end, widen_end, find_base, read_directory_end}
use go.Ziputil.Bounds.{found_in_last, look_in_last-Holds}
use go.Ziputil.Written.{Entry, Plain, directory_bytes, end_bytes}
use go.Ziputil.ReadBack.{read_end-end_bytes}
use go.Ziputil.Find.{found_in_last-end_bytes, found_in_last-none}

module _ (contents : List ℕ) (es : List Entry) (comment : List ℕ)
    (plain : Plain contents es comment) where
  abbrev pub end_of : List ℕ
  end_of = end_bytes (length es) (length (directory_bytes es)) (length contents) comment

  abbrev pub end_record : DirectoryEnd
  end_record = record {
    disk_nbr = 0;
    dir_disk_nbr = 0;
    dir_records_this_disk = length es;
    directory_records = length es;
    directory_size = length (directory_bytes es);
    directory_offset = length contents;
    comment_len = length comment;
    comment = comment;
  }

  pub length-end : length end_of ≡ 22 + length comment
  unfolding end_bytes put
  length-end = omega arith

  -- The end is among the last 65 KiB, if not among the last 1 KiB.
  find_end-end :
      (front : List ℕ) (r : SizeReaderAt)
      → Holds (front ++ end_of) r
      → find_end r (length (front ++ end_of)) ≡ ok (end_of, length front)
  unfolding find_end
  find_end-end front r h =
      let all = front ++ end_of in
      let total = length-append front end_of in
      let a = look_in_last-Holds all r 1024 h in
      let b = look_in_last-Holds all r 66560 h in
      let l = length-end in
      let c = plain.comment_fits in
      let found : (n : ℕ)
          → length end_of ≤ n
          → n ≤ length all
          → found_in_last n all ≡ some (end_of, length front) =
        λ n p q.
          found_in_last-end_bytes n front (length es) (length (directory_bytes es))
            (length contents) comment c plain.last p q in
      elim (Bool-cases (leb (length end_of) 1024)) [
        | inl near ↦
            let f = found (min 1024 (length all)) (ground (arith, near, total)) (omega arith) in
            ground (arith, a, f)
        | inr far ↦
            let nothing = found_in_last-none 1024 front end_of plain.last (ground (arith, far)) in
            let most : min 1024 (length all) ≡ 1024 = ground (arith, far, total) in
            let none_first = a ∙ ap (λ k. ok (found_in_last k all)) most ∙ ap (λ x. ok x) nothing in
            let f = found (min 66560 (length all)) (omega (arith, l, c, total)) (omega arith) in
            ground (arith, none_first, far, total, b, f)
      ]

  widen_end-plain : (r : SizeReaderAt) (off : ℕ) → widen_end r end_record off ≡ ok (end_record, off)
  unfolding widen_end
  widen_end-plain r off = ground (arith, plain.count, plain.not_special, plain.start)

  find_base-plain :
      (r : SizeReaderAt) (size : ℕ)
      → length contents + length (directory_bytes es) < size
      → find_base r size end_record (length contents + length (directory_bytes es)) ≡ ok 0
  unfolding find_base sub64
  find_base-plain r size h =
      let n = length contents in
      let k = length (directory_bytes es) in
      let s = plain.small in
      let c = plain.start in
      let base : (((n + k + (2 ^ 64 - k)) % 2 ^ 64) + (2 ^ 64 - n)) % 2 ^ 64 ≡ 0 =
        omega (arith, s, c) in
      ground (arith, base, h, s, c)

  -- Behind anything that is as long as what really stands there, the directory's end is read.
  pub read_directory_end-plain :
      (front : List ℕ) (r : SizeReaderAt)
      → Holds (front ++ end_of) r
      → length front ≡ length contents + length (directory_bytes es)
      → read_directory_end r (length (front ++ end_of)) ≡ ok (end_record, 0)
  unfolding read_directory_end
  read_directory_end-plain front r h e =
      let found = find_end-end front r h in
      let read =
        read_end-end_bytes (length es) (length (directory_bytes es)) (length contents) comment
          (omega (arith, plain.count)) plain.small (omega (arith, plain.start))
          plain.comment_fits in
      let wide = widen_end-plain r (length front) in
      let based =
        ap (find_base r (length (front ++ end_of)) end_record) e
        ∙ find_base-plain r (length (front ++ end_of))
            (omega (arith, e, length-append front end_of, length-end)) in
      ground (arith, found, read, wide, based)
