-- ===== src/Ziputil/Toc.antt =====
-- `ZipTOCSize` and `ParseTOC` of ziputil/ziputil.go, over the readers of readerutil.
use go.Common.{
  ℕ, zero, suc, ◌+◌, ◌-◌, ◌%◌, ◌^◌, Bool, ◌||◌, Option, none, some, List, [], ◌∷◌, length, ◌==◌,
  ltb, if◌then◌else◌,
}
use go.Readerutil.Parts.{
  unexpected_eof, SizeReaderAt, zero_size_reader_at, bytes_reader, multi_source,
}
use go.Readerutil.Buffering.{Stream}
use go.Ziputil.ReadBuf.{err_format, reader_err, invalid_arguments, wrong_number, Result, ok, fail}
use go.Ziputil.Header.{FileHeader, read_directory_header}
use go.Ziputil.End.{sub64, is_negative, read_directory_end, section}

-- `Reader`
pub record Reader : Type 0 where
  pub files : List FileHeader
  pub base_offset : ℕ
  pub comment : List ℕ

-- The loop of `ParseTOC`: all headers up to the first thing that is none. `base` is added to their
-- offsets. Fuel bounds the headers: each takes 46 bytes at least.
unfoldable pub read_headers : ℕ → ℕ → Stream → Result (List FileHeader)
read_headers zero base r = ok []
read_headers (suc fuel) base r = elim (read_directory_header r) [
  | fail err_format ↦ ok []
  | fail (reader_err unexpected_eof) ↦ ok []
  | fail e ↦ fail e
  | ok (f, r1) ↦ elim (read_headers fuel base r1) [
    | fail e ↦ fail e
    | ok fs ↦ ok (record f { header_offset = (f.header_offset + base) % 2 ^ 64 } ∷ fs)
  ]
]

-- The rest of `ParseTOC`, once the end of the directory is read. `Seek` refuses a negative offset, which
-- `readDirectoryEnd` never gives; its error stands as that of invalid arguments.
unfoldable pub read_toc : SizeReaderAt → ℕ → ℕ → ℕ → ℕ → List ℕ → Result Reader
unfolding read_headers
read_toc ra size base offset records comment =
    let start = (base + offset) % 2 ^ 64 in
    let rs = section ra start (size - start) in
    if is_negative start
    then fail invalid_arguments
    else elim (read_headers (suc (length rs.bytes)) base rs) [
      | fail e ↦ fail e
      | ok files ↦
          if length files % 2 ^ 16 == records % 2 ^ 16
          then ok (record { files = files; base_offset = base; comment = comment })
          else fail (wrong_number (length files) records)
    ]

-- `sort.Search`, which `multiRA` uses, is a parameter.
module _ (search : ℕ → (ℕ → Bool) → ℕ) where
  -- The reader of `ZipTOCSize` and `ParseTOC`: zeros, and the known end of the file behind them.
  unfoldable pub suffix_reader : ℕ → List ℕ → SizeReaderAt
  suffix_reader size footer =
      multi_source search (zero_size_reader_at (size - length footer) ∷ bytes_reader footer ∷ [])

  -- `ZipTOCSize`: none where it reports false.
  unfoldable pub zip_toc_size : ℕ → List ℕ → Option ℕ
  unfolding suffix_reader
  zip_toc_size size footer =
      let answer : Option ℕ = elim (read_directory_end (suffix_reader size footer) size) [
        | fail _ ↦ none
        | ok (d, base) ↦
            let toc_size = sub64 size ((base + d.directory_offset) % 2 ^ 64) in
            if is_negative toc_size || ltb size toc_size then none else some toc_size
      ] in
      if ltb size (length footer) then none else answer

  -- `ParseTOC`
  unfoldable pub parse_toc : ℕ → List ℕ → Result Reader
  unfolding suffix_reader read_toc
  parse_toc size toc =
      let ra = suffix_reader size toc in
      let parsed : Result Reader = elim (read_directory_end ra size) [
        | fail e ↦ fail e
        | ok (d, base) ↦ read_toc ra size base d.directory_offset d.directory_records d.comment
      ] in
      if ltb size (length toc) then fail invalid_arguments else parsed
