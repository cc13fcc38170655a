-- ===== src/Ziputil/Written.antt =====
-- An archive as it is written, without zip64 records: an independent description of what the parsers
-- of ziputil/ziputil.go read. The directory headers and the end of the directory, as bytes.
use go.Common.{ℕ, ◌+◌, ◌-◌, ◌^◌, ◌≤◌, ◌<◌, ◌≡◌, ◌≢◌, false, none, List, [], ◌∷◌, ◌++◌, length}
use go.Ziputil.ReadBuf.{put}
use go.Ziputil.Names.{is_non_utf8}
use go.Ziputil.Header.{FileHeader}
use go.Ziputil.End.Search.{signature_at}

-- A file in the directory.
pub record Entry : Type 0 where
  pub name : List ℕ
  pub comment : List ℕ
  pub creator_version : ℕ
  pub reader_version : ℕ
  pub flags : ℕ
  pub method : ℕ
  pub modified_time : ℕ
  pub modified_date : ℕ
  pub crc32 : ℕ
  pub compressed_size : ℕ
  pub uncompressed_size : ℕ
  pub external_attrs : ℕ
  pub header_offset : ℕ

-- The fields fit, and none is the largest number, which stands for a zip64 value.
pub record Fits (e : Entry) : Type 0 where
  pub name : length e.name < 256 ^ 2
  pub comment : length e.comment < 256 ^ 2
  pub creator_version : e.creator_version < 256 ^ 2
  pub reader_version : e.reader_version < 256 ^ 2
  pub flags : e.flags < 256 ^ 2
  pub method : e.method < 256 ^ 2
  pub modified_time : e.modified_time < 256 ^ 2
  pub modified_date : e.modified_date < 256 ^ 2
  pub crc32 : e.crc32 < 256 ^ 4
  pub compressed_size : e.compressed_size < 256 ^ 4 - 1
  pub uncompressed_size : e.uncompressed_size < 256 ^ 4 - 1
  pub external_attrs : e.external_attrs < 256 ^ 4
  pub header_offset : e.header_offset < 256 ^ 4 - 1

unfoldable pub AllFit : List Entry → Type 0
AllFit [] = Unit
AllFit (e ∷ es) = Fits e × AllFit es

-- The 46 bytes of a directory header.
unfoldable pub fixed_bytes : Entry → List ℕ
fixed_bytes e = put 4 33639248 (
    put 2 e.creator_version (
      put 2 e.reader_version (
        put 2 e.flags (
          put 2 e.method (
            put 2 e.modified_time (
              put 2 e.modified_date (
                put 4 e.crc32 (
                  put 4 e.compressed_size (
                    put 4 e.uncompressed_size (
                      put 2 (length e.name) (
                        put 2 0 (
                          put 2 (length e.comment) (
                            put 4 0 (put 4 e.external_attrs (put 4 e.header_offset [])))))))))))))))

unfoldable pub header_bytes : Entry → List ℕ
unfolding fixed_bytes
header_bytes e = fixed_bytes e ++ (e.name ++ e.comment)

unfoldable pub directory_bytes : List Entry → List ℕ
unfolding header_bytes
directory_bytes [] = []
directory_bytes (e ∷ es) = header_bytes e ++ directory_bytes es

-- The end of the directory: its entries, its size and where it starts.
unfoldable pub end_bytes : ℕ → ℕ → ℕ → List ℕ → List ℕ
end_bytes records size offset comment = put 4 101010256 (
    put 2 0 (
      put 2 0 (
        put 2 records
          (put 2 records (put 4 size (put 4 offset (put 2 (length comment) comment)))))))

-- The header that the parser gives for an entry.
unfoldable pub read_back : Entry → FileHeader
read_back e = record {
  name = e.name;
  comment = e.comment;
  non_utf8 = is_non_utf8 e.name e.comment e.flags;
  creator_version = e.creator_version;
  reader_version = e.reader_version;
  flags = e.flags;
  method = e.method;
  modified = none;
  modified_time = e.modified_time;
  modified_date = e.modified_date;
  crc32 = e.crc32;
  compressed_size = e.compressed_size;
  uncompressed_size = e.uncompressed_size;
  compressed_size64 = e.compressed_size;
  uncompressed_size64 = e.uncompressed_size;
  extra = [];
  external_attrs = e.external_attrs;
  header_offset = e.header_offset;
}

-- A whole file: the data before the directory, the directory and its end.
unfoldable pub archive_bytes : List ℕ → List Entry → List ℕ → List ℕ
unfolding directory_bytes end_bytes
archive_bytes contents es comment =
    contents
    ++ (directory_bytes es
        ++ end_bytes (length es) (length (directory_bytes es)) (length contents) comment)

-- No end of a directory seems to begin behind the first byte.
abbrev pub LastSignature : List ℕ → Type 0
LastSignature b = (j : ℕ) → 0 < j → j + 22 ≤ length b → signature_at j b ≡ false

-- An archive that needs no zip64 records. (The code looks for these also where the directory takes
-- 65535 bytes.)
pub record Plain (contents : List ℕ) (es : List Entry) (comment : List ℕ) : Type 0 where
  pub entries : AllFit es
  pub count : length es < 256 ^ 2 - 1
  pub small : length (directory_bytes es) < 256 ^ 4
  pub not_special : length (directory_bytes es) ≢ 65535
  pub start : length contents < 256 ^ 4 - 1
  pub comment_fits : length comment < 256 ^ 2
  pub last :
      LastSignature (end_bytes (length es) (length (directory_bytes es)) (length contents) comment)
