-- ===== src/Ziputil/Checksum.antt =====
-- `checksumReader` of ziputil/ziputil.go, as a machine: each `Read` has what the body's reader gives and
-- what the raw reader would give next as its inputs.
pub mod Sound
use go.Common.{
  ℕ, ◌+◌, ◌%◌, ◌^◌, ◌≤◌, ◌<◌, ◌≡◌, refl, ap, sym, ◌∙◌, subst, arith, Bool, true, false, ◌||◌, ◌⊎◌,
  inl, inr, Option, none, some, List, [], ◌++◌, length, ◌==◌, ltb, if◌then◌else◌, Bool-cases,
  Option-cases, append-nil, length-append,
}
use go.Readerutil.Parts.{ReadErr, eof, unexpected_eof, stuck, failed}
use go.Readerutil.Buffering.{Stream}
use go.Ziputil.ReadBuf.{
  ZipErr, err_format, err_checksum, comment_length, invalid_arguments, unsupported, header_length,
  wrong_number, reader_err,
}
use go.Ziputil.Open.{read_data_descriptor}

-- `crc32` and `size` are those of the `FileHeader`; `hashed` is what the hash has been given.
pub record ChecksumReader : Type 0 where
  pub hashed : List ℕ
  pub nread : ℕ
  pub wants_desc : Bool
  pub crc32 : ℕ
  pub size : ℕ
  pub err : Option ZipErr
  pub raw_open : Bool

unfoldable pub new_checksum_reader : Bool → ℕ → ℕ → ChecksumReader
new_checksum_reader wants_desc crc32 size = record {
  hashed = [];
  nread = 0;
  wants_desc = wants_desc;
  crc32 = crc32;
  size = size;
  err = none;
  raw_open = true;
}

-- `setErr`: the error that it returns is the one that is kept.
unfoldable pub set_err : Option ZipErr → ChecksumReader → ChecksumReader
set_err none r = r
set_err (some e) r = elim r.err [ some _ ↦ r | none ↦ record r { err = some e; raw_open = false } ]

-- The error at the end of a body that a data descriptor follows: that of the descriptor, of which
-- `io.EOF` is an unexpected one, or else the one that is left.
unfoldable pub desc_err : Option ZipErr → ZipErr → ZipErr
desc_err (some (reader_err eof)) e = reader_err unexpected_eof
desc_err (some e0) e = e0
desc_err none e = e

-- The error for a sum, which is `io.EOF` if the sum is right.
unfoldable pub sum_err : Bool → ZipErr
sum_err right = if right then reader_err eof else err_checksum

-- `crc32.NewIEEE` is a parameter: the sum of all the bytes that were written to the hash.
module _ (sum32 : List ℕ → ℕ) where
  -- The error at the end of the body, once the length is right.
  unfoldable pub final_err : Stream → ChecksumReader → ZipErr
  unfolding desc_err sum_err
  final_err rest r =
      if r.wants_desc
      then desc_err (read_data_descriptor rest r.crc32) (sum_err (sum32 r.hashed == r.crc32))
      else sum_err ((r.crc32 == 0) || (sum32 r.hashed == r.crc32))

  -- The error of a `Read` that got `err` from the body, and whether it delivers its bytes.
  unfoldable pub outcome : Option ReadErr → Stream → ChecksumReader → Bool × Option ZipErr
  unfolding final_err
  outcome err rest r = if ltb r.size r.nread then (false, some err_format) else elim err [
    | none ↦ (true, none)
    | some eof ↦
        if r.nread == r.size
        then (true, some (final_err rest r))
        else (false, some (reader_err unexpected_eof))
    | some e ↦ (true, some (reader_err e))
  ]

  -- `Read`: the bytes, the error, and the reader.
  unfoldable pub read :
      List ℕ → Option ReadErr → Stream → ChecksumReader → List ℕ × Option ZipErr × ChecksumReader
  unfolding outcome set_err
  read got err rest r =
      let r1 = record r { hashed = r.hashed ++ got; nread = (r.nread + length got) % 2 ^ 64 } in
      let (delivers, e) = outcome err rest r1 in
      elim r.err [
        | some e0 ↦ ([], some e0, r)
        | none ↦ (if delivers then got else [], e, set_err e r1)
      ]

  -- All uses of a reader: what has been delivered so far.
  pub data Reads (r0 : ChecksumReader) : List ℕ → ChecksumReader → Type 0 where
    opened : Reads r0 [] r0
    reads :
        {d : List ℕ} {r : ChecksumReader} (got : List ℕ) (err : Option ReadErr) (rest : Stream)
        → length got < 2 ^ 63
        → Reads r0 d r
        → Reads r0 (d ++ (read got err rest r).0) (read got err rest r).2
