-- ===== src/Ziputil/Header.antt =====
-- `FileHeader` and `readDirectoryHeader` of ziputil/ziputil.go.
pub mod Extras
use go.Common.{
  ℕ, ◌+◌, ◌-◌, ◌^◌, ◌≤◌, ◌<◌, ◌≡◌, Bool, true, false, not, ◌&&◌, ◌||◌, Option, none, some, List,
  take, drop, length, ◌==◌, ltb, leb, if◌then◌else◌,
}
use go.Readerutil.Parts.{ReadErr}
use go.Readerutil.Buffering.{Stream, read_full}
use go.Ziputil.ReadBuf.{ZipErr, err_format, reader_err, Result, ok, fail, uint}
use go.Ziputil.Names.{is_non_utf8}
use go.Ziputil.Header.Extras.{Stamp, Found, read_extras}

-- `modified` is the time that an extra field gives, if one does; `modified_of` in Times makes the
-- `Modified` of the source of it and of the two fields of MS-DOS.
pub record FileHeader : Type 0 where
  pub name : List ℕ
  pub comment : List ℕ
  pub non_utf8 : Bool
  pub creator_version : ℕ
  pub reader_version : ℕ
  pub flags : ℕ
  pub method : ℕ
  pub modified : Option Stamp
  pub modified_time : ℕ
  pub modified_date : ℕ
  pub crc32 : ℕ
  pub compressed_size : ℕ
  pub uncompressed_size : ℕ
  pub compressed_size64 : ℕ
  pub uncompressed_size64 : ℕ
  pub extra : List ℕ
  pub external_attrs : ℕ
  pub header_offset : ℕ

-- The part of a directory header that has a fixed length.
pub record Fixed : Type 0 where
  pub creator_version : ℕ
  pub reader_version : ℕ
  pub flags : ℕ
  pub method : ℕ
  pub modified_time : ℕ
  pub modified_date : ℕ
  pub crc32 : ℕ
  pub compressed_size : ℕ
  pub uncompressed_size : ℕ
  pub filename_len : ℕ
  pub extra_len : ℕ
  pub comment_len : ℕ
  pub external_attrs : ℕ
  pub header_offset : ℕ

unfoldable pub read_fixed : List ℕ → Option Fixed
read_fixed b =
    let (sig, b) = uint 4 b in
    let (creator_version, b) = uint 2 b in
    let (reader_version, b) = uint 2 b in
    let (flags, b) = uint 2 b in
    let (method, b) = uint 2 b in
    let (modified_time, b) = uint 2 b in
    let (modified_date, b) = uint 2 b in
    let (crc32, b) = uint 4 b in
    let (compressed_size, b) = uint 4 b in
    let (uncompressed_size, b) = uint 4 b in
    let (filename_len, b) = uint 2 b in
    let (extra_len, b) = uint 2 b in
    let (comment_len, b) = uint 2 b in
    let b = drop 4 b in
    let (external_attrs, b) = uint 4 b in
    let (header_offset, b) = uint 4 b in
    if sig == 33639248
    then some (record {
      creator_version = creator_version;
      reader_version = reader_version;
      flags = flags;
      method = method;
      modified_time = modified_time;
      modified_date = modified_date;
      crc32 = crc32;
      compressed_size = compressed_size;
      uncompressed_size = uncompressed_size;
      filename_len = filename_len;
      extra_len = extra_len;
      comment_len = comment_len;
      external_attrs = external_attrs;
      header_offset = header_offset;
    })
    else none

-- What the extra fields start from.
unfoldable pub wanted : Fixed → Found
wanted x = record {
  need_usize = x.uncompressed_size == 2 ^ 32 - 1;
  need_csize = x.compressed_size == 2 ^ 32 - 1;
  need_header_offset = x.header_offset == 2 ^ 32 - 1;
  usize = x.uncompressed_size;
  csize = x.compressed_size;
  header_offset = x.header_offset;
  modified = none;
}

-- The header, from its two parts and what the extra fields gave.
unfoldable pub header_of : Fixed → List ℕ → Found → FileHeader
unfolding is_non_utf8
header_of x d f =
    let name = take x.filename_len d in
    let comment = drop (x.filename_len + x.extra_len) d in
    record {
      name = name;
      comment = comment;
      non_utf8 = is_non_utf8 name comment x.flags;
      creator_version = x.creator_version;
      reader_version = x.reader_version;
      flags = x.flags;
      method = x.method;
      modified = f.modified;
      modified_time = x.modified_time;
      modified_date = x.modified_date;
      crc32 = x.crc32;
      compressed_size = x.compressed_size;
      uncompressed_size = x.uncompressed_size;
      compressed_size64 = f.csize;
      uncompressed_size64 = f.usize;
      extra = take x.extra_len (drop x.filename_len d);
      external_attrs = x.external_attrs;
      header_offset = f.header_offset;
    }

-- The rest of `readDirectoryHeader`, behind the part of variable length.
unfoldable pub finish_header : Fixed → List ℕ → Result FileHeader
unfolding wanted header_of
finish_header x d = elim (read_extras (wanted x) (take x.extra_len (drop x.filename_len d))) [
  | fail e ↦ fail e
  | ok f ↦ if f.need_csize || f.need_header_offset then fail err_format else ok (header_of x d f)
]

-- `readDirectoryHeader`: the header and what the reader has left.
unfoldable pub read_directory_header : Stream → Result (FileHeader × Stream)
unfolding read_fixed finish_header
read_directory_header r =
    let (buf, err, r1) = read_full 46 r in
    elim err [
      | some e ↦ fail (reader_err e)
      | none ↦ elim (read_fixed buf) [
        | none ↦ fail err_format
        | some x ↦
            let (d, err2, r2) = read_full (x.filename_len + x.extra_len + x.comment_len) r1 in
            elim err2 [
              | some e ↦ fail (reader_err e)
              | none ↦ elim (finish_header x d) [ fail e ↦ fail e | ok h ↦ ok (h, r2) ]
            ]
      ]
    ]
