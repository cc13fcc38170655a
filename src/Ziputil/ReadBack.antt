-- ===== src/Ziputil/ReadBack.antt =====
-- The parsers of ziputil/ziputil.go on the bytes of a written directory.
use go.Common.{
  ℕ, zero, suc, ◌+◌, ◌-◌, ◌%◌, ◌^◌, ◌<◌, ◌≡◌, ◌≢◌, refl, ap, sym, arith, true, false, none, some,
  List, [], ◌∷◌, ◌++◌, take, length, ltb, leb, ◌==◌, map, length-append, append_assoc, take_of_le,
  take-append, drop-append, Bool-cases, inl, inr, ◌⊎◌,
}
use go.Readerutil.Parts.{ReadErr, eof, unexpected_eof}
use go.Readerutil.Buffering.{Stream, read_full, cut_short}
use go.Ziputil.ReadBuf.{err_format, reader_err, take-put, Result, ok, fail, put, uint-put, drop-put}
use go.Ziputil.Header.{
  FileHeader, Fixed, read_fixed, wanted, header_of, finish_header, read_directory_header,
}
use go.Ziputil.Header.Extras.{read_extras}
use go.Ziputil.End.{read_end}
use go.Ziputil.Toc.{read_headers}
use go.Ziputil.Written.{
  Entry, Fits, AllFit, fixed_bytes, header_bytes, directory_bytes, end_bytes, read_back,
}

fixed_of : Entry → Fixed
fixed_of e = record {
  creator_version = e.creator_version;
  reader_version = e.reader_version;
  flags = e.flags;
  method = e.method;
  modified_time = e.modified_time;
  modified_date = e.modified_date;
  crc32 = e.crc32;
  compressed_size = e.compressed_size;
  uncompressed_size = e.uncompressed_size;
  filename_len = length e.name;
  extra_len = 0;
  comment_len = length e.comment;
  external_attrs = e.external_attrs;
  header_offset = e.header_offset;
}

read_fixed-fixed_bytes : (e : Entry) → Fits e → read_fixed (fixed_bytes e) ≡ some (fixed_of e)
unfolding read_fixed fixed_bytes fixed_of
read_fixed-fixed_bytes e h =
    rw
      (
        uint-put 4 33639248 _ (ground arith),
        uint-put 2 e.creator_version _ h.creator_version,
        uint-put 2 e.reader_version _ h.reader_version,
        uint-put 2 e.flags _ h.flags,
        uint-put 2 e.method _ h.method,
        uint-put 2 e.modified_time _ h.modified_time,
        uint-put 2 e.modified_date _ h.modified_date,
        uint-put 4 e.crc32 _ h.crc32,
        uint-put 4 e.compressed_size _ (omega (arith, h.compressed_size)),
        uint-put 4 e.uncompressed_size _ (omega (arith, h.uncompressed_size)),
        uint-put 2 (length e.name) _ h.name,
        uint-put 2 0 _ (ground arith),
        uint-put 2 (length e.comment) _ h.comment,
        drop-put 4 0 _,
        uint-put 4 e.external_attrs _ h.external_attrs,
        uint-put 4 e.header_offset _ (omega (arith, h.header_offset)),
      )
      refl

pub read_full-append :
    (n : ℕ) (a b : List ℕ) (f : ReadErr)
    → n ≡ length a
    → read_full n (record { bytes = a ++ b; fault = f })
      ≡ (a, none, record { bytes = b; fault = f })
unfolding read_full
read_full-append n a b f e =
    let enough : leb n (length (a ++ b)) ≡ true = ground (arith, e, length-append a b) in
    rw (enough, take-append n a b e, drop-append n a b e) refl

length-fixed_bytes : (e : Entry) → length (fixed_bytes e) ≡ 46
unfolding fixed_bytes put
length-fixed_bytes e = omega arith

finish_header-read_back :
    (e : Entry) → Fits e → finish_header (fixed_of e) (e.name ++ e.comment) ≡ ok (read_back e)
unfolding finish_header fixed_of wanted header_of read_back read_extras
finish_header-read_back e h =
    let csize : (e.compressed_size == 2 ^ 32 - 1) ≡ false = ground (arith, h.compressed_size) in
    let off : (e.header_offset == 2 ^ 32 - 1) ≡ false = ground (arith, h.header_offset) in
    rw
      (
        csize,
        off,
        take-append (length e.name) e.name e.comment refl,
        drop-append (length e.name + 0) e.name e.comment (omega arith),
      )
      refl

-- A header in front of other bytes is read back, and the others are left.
pub read_directory_header-header_bytes :
    (e : Entry) (more : List ℕ) (f : ReadErr)
    → Fits e
    → read_directory_header (record { bytes = header_bytes e ++ more; fault = f })
      ≡ ok (read_back e, record { bytes = more; fault = f })
unfolding read_directory_header header_bytes fixed_of
read_directory_header-header_bytes e more f h =
    let a = append_assoc (fixed_bytes e) (e.name ++ e.comment) more in
    let p =
      read_full-append 46 (fixed_bytes e) (e.name ++ e.comment ++ more) f
        (sym (length-fixed_bytes e)) in
    let q =
      read_full-append (length e.name + 0 + length e.comment) (e.name ++ e.comment) more f
        (omega (arith, length-append e.name e.comment)) in
    ground (arith, a, p, read_fixed-fixed_bytes e h, q, finish_header-read_back e h)

-- Behind another signature there is no header.
read_fixed-other :
    (v : ℕ) (rest : List ℕ) → v < 256 ^ 4 → v ≢ 33639248 → read_fixed (put 4 v rest) ≡ none
unfolding read_fixed
read_fixed-other v rest b other = ground (arith, uint-put 4 v rest b, other)

-- What the end of the directory gives where a header is looked for.
Stops : Result (FileHeader × Stream) → Type 0
Stops x = (x ≡ fail err_format) ⊎ (x ≡ fail (reader_err unexpected_eof))

short_error : (v : ℕ) (rest : List ℕ) → cut_short (put 4 v rest) eof ≡ unexpected_eof
unfolding cut_short put
short_error v rest = refl

no_header :
    (v : ℕ) (rest : List ℕ)
    → v < 256 ^ 4
    → v ≢ 33639248
    → Stops (read_directory_header (record { bytes = put 4 v rest; fault = eof }))
unfolding Stops read_directory_header read_full
no_header v rest b other = elim (Bool-cases (leb 46 (length (put 4 v rest)))) [
  | inl long ↦
      inl (ground (arith, long, take-put 4 42 v rest, read_fixed-other v (take 42 rest) b other))
  | inr short ↦ inr (ground (arith, short, short_error v rest))
]

offset_same :
    (e : Entry)
    → Fits e
    → record (read_back e) { header_offset = ((read_back e).header_offset + 0) % 2 ^ 64 }
      ≡ read_back e
unfolding read_back
offset_same e h =
    ap (λ o. record (read_back e) { header_offset = o }) {y = e.header_offset}
      (omega (arith, h.header_offset))

-- The loop of `ParseTOC` gives all entries back, and ends at the end of the directory.
pub read_headers-directory_bytes :
    (fuel : ℕ) (es : List Entry) (v : ℕ) (rest : List ℕ)
    → AllFit es
    → length es < fuel
    → v < 256 ^ 4
    → v ≢ 33639248
    → read_headers fuel 0 (record { bytes = directory_bytes es ++ put 4 v rest; fault = eof })
      ≡ ok (map read_back es)
unfolding read_headers directory_bytes AllFit Stops
read_headers-directory_bytes zero es v rest h l b other = absurd (omega arith)
read_headers-directory_bytes (suc fuel) [] v rest h l b other =
    ground (arith, no_header v rest b other)
read_headers-directory_bytes (suc fuel) (e ∷ es) v rest (h, hs) l b other =
    let a = append_assoc (header_bytes e) (directory_bytes es) (put 4 v rest) in
    let p = read_directory_header-header_bytes e (directory_bytes es ++ put 4 v rest) eof h in
    let q = read_headers-directory_bytes fuel es v rest hs (omega arith) b other in
    ground (arith, a, p, q, offset_same e h)

-- The end of the directory is read back.
pub read_end-end_bytes :
    (records size offset : ℕ) (comment : List ℕ)
    → records < 256 ^ 2
    → size < 256 ^ 4
    → offset < 256 ^ 4
    → length comment < 256 ^ 2
    → read_end (end_bytes records size offset comment)
      ≡ some (record {
        disk_nbr = 0;
        dir_disk_nbr = 0;
        dir_records_this_disk = records;
        directory_records = records;
        directory_size = size;
        directory_offset = offset;
        comment_len = length comment;
        comment = comment;
      })
unfolding read_end end_bytes
read_end-end_bytes records size offset comment a b c d =
    let all_of : ltb (length comment) (length comment) ≡ false = ground arith in
    rw
      (
        drop-put 4 101010256 _,
        uint-put 2 0 _ (ground arith),
        uint-put 2 0 _ (ground arith),
        uint-put 2 records _ a,
        uint-put 2 records _ a,
        uint-put 4 size _ b,
        uint-put 4 offset _ c,
        uint-put 2 (length comment) _ d,
        all_of,
        take_of_le (length comment) comment (omega arith),
      )
      refl
