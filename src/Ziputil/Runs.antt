-- ===== src/Ziputil/Runs.antt =====
-- Concrete runs of ziputil, and its theorems at concrete inputs.
use go.Common.{
  ℕ, zero, suc, ◌+◌, ◌-◌, ◌^◌, ◌≤◌, ◌<◌, ◌≡◌, refl, arith, map, List, [], ◌∷◌, ◌++◌, true, false,
  none, some, length, take, drop, replicate, inl, ◌⊎◌, ◌==◌,
}
use go.Readerutil.Parts.{eof, multi_source, zero_size_reader_at, bytes_reader}
use go.Readerutil.Runs.{linear, linear-IsSearch}
use go.Readerutil.Buffering.{Stream}
use go.Ziputil.ReadBuf.{ZipErr, put, uint, err_format, reader_err, ok, fail}
use go.Ziputil.Header.{FileHeader}
use go.Ziputil.Names.{detect_utf8}
use go.Ziputil.End.Search.{signature_at}
use go.Ziputil.End.{read_directory_end}
use go.Ziputil.Toc.{suffix_reader, zip_toc_size, parse_toc}
use go.Ziputil.Bounds.{zip_toc_size_bounds}
use go.Ziputil.Written.{
  Entry, Fits, AllFit, Plain, LastSignature, directory_bytes, end_bytes, archive_bytes, read_back,
}
use go.Ziputil.RoundTrip.{zip_toc_size-archive_bytes, parse_toc-archive_bytes}
use go.Ziputil.Checksum.{ChecksumReader, new_checksum_reader, read, Reads, opened, reads}
use go.Ziputil.Checksum.Sound.{eof_means_checked, read-read}
use go.Ziputil.Open.{variable_len, open_with_reader, has_data_desc}
use go.Ziputil.Times.{of_unix, ms_dos_time_to_time, time_zone, east, Fair, time_zone-Fair}
use go.Ziputil.OpenAt.{local_header, left_over, served, open_with_reader-local_header}

abbrev entry : Entry
entry = record {
  name = 97 ∷ 46 ∷ 99 ∷ [];
  comment = 33 ∷ [];
  creator_version = 20;
  reader_version = 20;
  flags = 0;
  method = 0;
  modified_time = 1;
  modified_date = 2;
  crc32 = 77;
  compressed_size = 2;
  uncompressed_size = 2;
  external_attrs = 5;
  header_offset = 0;
}

entry-Fits : Fits entry
entry-Fits = record {
  name = ground arith;
  comment = ground arith;
  creator_version = ground arith;
  reader_version = ground arith;
  flags = ground arith;
  method = ground arith;
  modified_time = ground arith;
  modified_date = ground arith;
  crc32 = ground arith;
  compressed_size = ground arith;
  uncompressed_size = ground arith;
  external_attrs = ground arith;
  header_offset = ground arith;
}

abbrev contents : List ℕ
contents = 1 ∷ 2 ∷ 3 ∷ []

abbrev note : List ℕ
note = 104 ∷ 105 ∷ []

-- The directory has 50 bytes.
note-LastSignature : LastSignature (end_bytes 1 50 3 note)
unfolding end_bytes put signature_at
note-LastSignature zero p q = absurd (omega arith)
note-LastSignature (suc zero) p q = refl
note-LastSignature (suc (suc zero)) p q = refl
note-LastSignature (suc (suc (suc j))) p q = absurd (omega arith)

plain : Plain contents (entry ∷ []) note
unfolding directory_bytes AllFit end_bytes put
plain = record {
  entries = (entry-Fits, tt);
  count = ground arith;
  small = ground arith;
  not_special = ground arith;
  start = ground arith;
  comment_fits = ground arith;
  last = note-LastSignature;
}

abbrev file : List ℕ
unfolding archive_bytes
file = archive_bytes contents (entry ∷ []) note

-- From the end of the directory alone `ZipTOCSize` gives the size from the directory on.
zip_toc_size_run : zip_toc_size linear 77 (drop 53 file) ≡ some 74
unfolding zip_toc_size archive_bytes put linear read_directory_end multi_source zero_size_reader_at
    bytes_reader uint
zip_toc_size_run = refl

directory_size : 53 ≤ length contents + length (directory_bytes (entry ∷ []))
unfolding directory_bytes put
directory_size = ground arith

zip_toc_size_example :
    zip_toc_size linear
      (length (archive_bytes contents (entry ∷ []) note))
      (drop 53 (archive_bytes contents (entry ∷ []) note))
    ≡ some (length (archive_bytes contents (entry ∷ []) note) - length contents)
zip_toc_size_example =
    zip_toc_size-archive_bytes contents (entry ∷ []) note plain linear linear-IsSearch 53
      directory_size

parse_toc_example :
    parse_toc linear
      (length (archive_bytes contents (entry ∷ []) note))
      (drop 3 (archive_bytes contents (entry ∷ []) note))
    ≡ ok (record { files = map read_back (entry ∷ []); base_offset = 0; comment = note })
parse_toc_example =
    parse_toc-archive_bytes contents (entry ∷ []) note plain linear linear-IsSearch 3 (ground arith)

bounds_example :
    ((x : ZipErr) × (read_directory_end (suffix_reader linear 77 (replicate 30 7)) 77 ≡ fail x)
      × (zip_toc_size linear 77 (replicate 30 7) ≡ none))
    ⊎ ((toc : ℕ) × (zip_toc_size linear 77 (replicate 30 7) ≡ some toc) × (0 < toc) × (toc ≤ 77))
bounds_example =
    zip_toc_size_bounds linear linear-IsSearch 77 (replicate 30 7) (ground arith) (ground arith)

-- A checksum that adds the bytes.
sum : List ℕ → ℕ
sum [] = 0
sum (x ∷ xs) = x + sum xs

abbrev seven : ℕ
seven = 7

abbrev two_bytes : List ℕ
two_bytes = 3 ∷ 4 ∷ []

abbrev empty_stream : Stream
empty_stream = record { bytes = []; fault = eof }

abbrev first_read : ChecksumReader
first_read = (read sum (3 ∷ 4 ∷ []) none empty_stream (new_checksum_reader false 7 2)).2

abbrev at_end : ChecksumReader
at_end = (read sum [] (some eof) empty_stream first_read).2

at_end-Reads : Reads sum (new_checksum_reader false 7 2) (3 ∷ 4 ∷ []) at_end
unfolding read new_checksum_reader sum
at_end-Reads =
    reads [] (some eof) empty_stream (ground arith)
      (reads (3 ∷ 4 ∷ []) none empty_stream (ground arith) opened)

at_end-eof : at_end.err ≡ some (reader_err eof)
unfolding read new_checksum_reader sum
at_end-eof = refl

eof_means_checked_example :
    (length two_bytes ≡ 2) × ((sum two_bytes ≡ 7) ⊎ ((false ≡ false) × (seven ≡ 0)))
eof_means_checked_example = eof_means_checked sum (ground arith) at_end-Reads at_end-eof

not_yet : (new_checksum_reader false 7 2).err ≡ none
unfolding new_checksum_reader
not_yet = refl

too_long :
    (read sum (3 ∷ 4 ∷ 5 ∷ []) none empty_stream (new_checksum_reader false 7 2)).1
    ≡ some err_format
unfolding read new_checksum_reader
too_long = refl

read-read_example :
    (read sum
        (9 ∷ [])
        none
        empty_stream
        (read sum (3 ∷ 4 ∷ 5 ∷ []) none empty_stream (new_checksum_reader false 7 2)).2
      ≡ (
        [],
        some err_format,
        (read sum (3 ∷ 4 ∷ 5 ∷ []) none empty_stream (new_checksum_reader false 7 2)).2,
      ))
    × ((read sum (3 ∷ 4 ∷ 5 ∷ []) none empty_stream (new_checksum_reader false 7 2)).2.raw_open
        ≡ false)
read-read_example =
    read-read sum (3 ∷ 4 ∷ 5 ∷ []) (9 ∷ []) none none empty_stream empty_stream
      (new_checksum_reader false 7 2) err_format not_yet too_long

abbrev stored : FileHeader
stored = read_back entry

open_example :
    open_with_reader stored (
      served (
        []
        ++ (local_header (replicate 22 1) (97 ∷ []) (9 ∷ 9 ∷ []) ++ (two_bytes ++ (5 ∷ 6 ∷ [])))))
    ≡ ok (record {
      body = record { bytes = two_bytes; fault = eof };
      behind = record {
        bytes = take (left_over stored (97 ∷ []) (9 ∷ 9 ∷ [])) (5 ∷ 6 ∷ []);
        fault = eof;
      };
      inflate = stored.method == 8;
      wants_desc = has_data_desc stored;
    })
unfolding read_back variable_len
open_example =
    open_with_reader-local_header stored [] (replicate 22 1) (97 ∷ []) (9 ∷ 9 ∷ []) two_bytes
      (5 ∷ 6 ∷ []) (inl refl) refl refl refl (ground arith) (ground arith) room small
  where
    room : 3 ≤ 515
    room = omega arith

    small : 2 + 46 + 515 < 2 ^ 63
    small = omega arith

detect_utf8_run : detect_utf8 (195 ∷ 169 ∷ 97 ∷ []) ≡ (true, true)
unfolding detect_utf8
detect_utf8_run = refl

-- 1 January 2000, 12:00, which is 946728000 seconds after the epoch.
dos_time_run : ms_dos_time_to_time 10273 24576 ≡ of_unix 946728000
unfolding ms_dos_time_to_time
dos_time_run = refl

-- Two hours and a few seconds.
time_zone_run : time_zone (of_unix 0) (of_unix 7203) ≡ east 7200
unfolding time_zone of_unix
time_zone_run = refl

time_zone-Fair_example : Fair (of_unix 7203) (of_unix 0) (time_zone (of_unix 7203) (of_unix 0))
time_zone-Fair_example = time_zone-Fair (of_unix 7203) (of_unix 0)
