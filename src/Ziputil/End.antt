-- ===== src/Ziputil/End.antt =====
-- `findSignatureInBlock`, `readDirectoryEnd` and the zip64 records of ziputil/ziputil.go. An `int64`
-- stands as its bits, a number below 2 ^ 64; it is negative from 2 ^ 63 on.
pub mod Search
use go.Common.{
  ℕ, zero, suc, ◌+◌, ◌-◌, ◌*◌, ◌%◌, ◌^◌, ◌≤◌, ◌<◌, ◌≡◌, min, Bool, true, false, not, ◌&&◌, ◌||◌,
  Option, none, some, List, [], ◌∷◌, ◌++◌, take, drop, length, replicate, get_elem?, ◌==◌, ltb, leb,
  if◌then◌else◌,
}
use go.Readerutil.Parts.{ReadErr, eof, SizeReaderAt}
use go.Readerutil.Buffering.{Stream}
use go.Ziputil.ReadBuf.{ZipErr, err_format, comment_length, reader_err, Result, ok, fail, uint}
use go.Ziputil.Header.{read_directory_header}
use go.Ziputil.End.Search.{find_signature_in_block}

-- Subtraction and the sign of an `int64`.
unfoldable pub sub64 : ℕ → ℕ → ℕ
sub64 a b = (a + (2 ^ 64 - b)) % 2 ^ 64

abbrev pub is_negative : ℕ → Bool
is_negative a = leb (2 ^ 63) a

-- `directoryEnd`
pub record DirectoryEnd : Type 0 where
  pub disk_nbr : ℕ
  pub dir_disk_nbr : ℕ
  pub dir_records_this_disk : ℕ
  pub directory_records : ℕ
  pub directory_size : ℕ
  pub directory_offset : ℕ
  pub comment_len : ℕ
  pub comment : List ℕ

-- Any error but `io.EOF` ends `readDirectoryEnd`.
unfoldable pub but_for_eof {ℓ} : {A : Type ℓ} → Option ReadErr → A → Result A
but_for_eof none a = ok a
but_for_eof (some eof) a = ok a
but_for_eof (some e) a = fail (reader_err e)

-- The block from the signature in it on, and its offset, where the block stands at `base`.
unfoldable pub signature_from : ℕ → List ℕ → Option (List ℕ × ℕ)
unfolding find_signature_in_block
signature_from base buf = elim (find_signature_in_block buf) [
  | none ↦ none
  | some p ↦ some (drop p buf, base + p)
]

-- A round of the loop in `readDirectoryEnd`: the buffer from the signature on, and its offset.
-- What the reader does not fill of the buffer are zeros.
unfoldable pub look_in_last : SizeReaderAt → ℕ → ℕ → Result (Option (List ℕ × ℕ))
unfolding signature_from but_for_eof
look_in_last r size wanted =
    let b_len = min wanted size in
    let (got, err) = r.read_at b_len (size - b_len) in
    let buf = got ++ replicate (b_len - length got) 0 in
    but_for_eof err (signature_from (size - b_len) buf)

unfoldable pub find_end : SizeReaderAt → ℕ → Result (List ℕ × ℕ)
unfolding look_in_last
find_end r size = elim (look_in_last r size 1024) [
  | fail e ↦ fail e
  | ok (some found) ↦ ok found
  | ok none ↦ if leb size 1024 then fail err_format else elim (look_in_last r size 66560) [
    | fail e ↦ fail e
    | ok (some found) ↦ ok found
    | ok none ↦ fail err_format
  ]
]

-- The fields behind the signature; none where the comment is not all there.
unfoldable pub read_end : List ℕ → Option DirectoryEnd
read_end buf =
    let b = drop 4 buf in
    let (disk_nbr, b) = uint 2 b in
    let (dir_disk_nbr, b) = uint 2 b in
    let (dir_records_this_disk, b) = uint 2 b in
    let (directory_records, b) = uint 2 b in
    let (directory_size, b) = uint 4 b in
    let (directory_offset, b) = uint 4 b in
    let (comment_len, b) = uint 2 b in
    if ltb (length b) comment_len
    then none
    else some (record {
      disk_nbr = disk_nbr;
      dir_disk_nbr = dir_disk_nbr;
      dir_records_this_disk = dir_records_this_disk;
      directory_records = directory_records;
      directory_size = directory_size;
      directory_offset = directory_offset;
      comment_len = comment_len;
      comment = take comment_len b;
    })

-- The fields of the locator: where the zip64 end stands, unless they name other disks.
unfoldable pub read_locator : List ℕ → Option ℕ
read_locator buf =
    let (sig, b) = uint 4 buf in
    let (disk, b) = uint 4 b in
    let (p, b) = uint 8 b in
    let (disks, b) = uint 4 b in
    if not (sig == 117853008)
    then none
    else if not (disk == 0)
    then none
    else if not (disks == 1)
    then none
    else some p

-- `findDirectory64End`: none is the -1 without an error.
unfoldable pub find_directory64_end : SizeReaderAt → ℕ → Result (Option ℕ)
unfolding read_locator
find_directory64_end r end_offset =
    let (got, err) = r.read_at 20 (end_offset - 20) in
    let located : Result (Option ℕ) = elim err [
      | some e ↦ fail (reader_err e)
      | none ↦ ok (read_locator got)
    ] in
    if ltb end_offset 20 then ok none else located

-- `readDirectory64End`
unfoldable pub read_directory64_end : SizeReaderAt → ℕ → DirectoryEnd → Result DirectoryEnd
read_directory64_end r offset d =
    let (got, err) = r.read_at 56 offset in
    let (sig, b) = uint 4 got in
    let b = drop 12 b in
    let (disk_nbr, b) = uint 4 b in
    let (dir_disk_nbr, b) = uint 4 b in
    let (dir_records_this_disk, b) = uint 8 b in
    let (directory_records, b) = uint 8 b in
    let (directory_size, b) = uint 8 b in
    let (directory_offset, b) = uint 8 b in
    elim err [
      | some e ↦ fail (reader_err e)
      | none ↦
          if sig == 101075792
          then ok (record d {
            disk_nbr = disk_nbr;
            dir_disk_nbr = dir_disk_nbr;
            dir_records_this_disk = dir_records_this_disk;
            directory_records = directory_records;
            directory_size = directory_size;
            directory_offset = directory_offset;
          })
          else fail err_format
    ]

-- The part of `readDirectoryEnd` on zip64 files: the end, and its offset.
unfoldable pub widen_end : SizeReaderAt → DirectoryEnd → ℕ → Result (DirectoryEnd × ℕ)
unfolding find_directory64_end read_directory64_end
widen_end r d end_offset =
    let wide : Result (DirectoryEnd × ℕ) = elim (find_directory64_end r end_offset) [
      | fail e ↦ fail e
      | ok none ↦ ok (d, end_offset)
      | ok (some p) ↦
          if is_negative p
          then ok (d, end_offset)
          else elim (read_directory64_end r p d) [ fail e ↦ fail e | ok d1 ↦ ok (d1, p) ]
    ] in
    if (d.directory_records == 65535)
      || ((d.directory_size == 65535) || (d.directory_offset == 2 ^ 32 - 1))
    then wide
    else ok (d, end_offset)

-- `io.NewSectionReader`, read from its start: the `n` bytes from `off` on, and then the end.
unfoldable pub section : SizeReaderAt → ℕ → ℕ → Stream
section r off n =
    let (got, err) = r.read_at n off in
    record { bytes = got; fault = elim err [ none ↦ eof | some e ↦ e ] }

-- Whether a directory header can be read at the offset.
unfoldable pub header_at : SizeReaderAt → ℕ → ℕ → Bool
unfolding section
header_at r size off = elim (read_directory_header (section r off (size - off))) [
  | ok _ ↦ true
  | fail _ ↦ false
]

-- The rest of `readDirectoryEnd`: the base offset.
unfoldable pub find_base : SizeReaderAt → ℕ → DirectoryEnd → ℕ → Result ℕ
unfolding sub64
find_base r size d end_offset =
    let base = sub64 (sub64 end_offset d.directory_size) d.directory_offset in
    let start = (base + d.directory_offset) % 2 ^ 64 in
    if ltb (2 ^ 63 - 1) d.directory_size || ltb (2 ^ 63 - 1) d.directory_offset
    then fail err_format
    else if is_negative start || leb size start
    then fail err_format
    else if not (is_negative base) && (ltb 0 base && header_at r size d.directory_offset)
    then ok 0
    else ok base

-- `readDirectoryEnd`: the end and the base offset.
unfoldable pub read_directory_end : SizeReaderAt → ℕ → Result (DirectoryEnd × ℕ)
unfolding find_end read_end widen_end find_base
read_directory_end r size = elim (find_end r size) [
  | fail e ↦ fail e
  | ok (buf, end_offset) ↦ elim (read_end buf) [
    | none ↦ fail comment_length
    | some d ↦ elim (widen_end r d end_offset) [
      | fail e ↦ fail e
      | ok (d1, end_offset1) ↦ elim (find_base r size d1 end_offset1) [
        | fail e ↦ fail e
        | ok base ↦ ok (d1, base)
      ]
    ]
  ]
]
