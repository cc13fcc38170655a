-- ===== src/Ziputil/Open.antt =====
-- `OpenWithReader`, `skipHeader` and `readDataDescriptor` of ziputil/ziputil.go.
use Prim.Native.Nat.{bit_and}
use go.Common.{
  ℕ, ◌+◌, ◌%◌, ◌^◌, Bool, not, ◌||◌, Option, none, some, ◌++◌, length, take, drop, ◌==◌, ltb, leb,
  if◌then◌else◌,
}
use go.Readerutil.Parts.{eof}
use go.Readerutil.Buffering.{Stream, read_full}
use go.Ziputil.ReadBuf.{
  ZipErr, err_format, err_checksum, unsupported, header_length, reader_err, Result, ok, fail, uint,
}
use go.Ziputil.Header.{FileHeader}

unfoldable pub has_data_desc : FileHeader → Bool
has_data_desc h = not (bit_and h.flags 8 == 0)

-- `io.CopyN` to `io.Discard`: none where the reader ends before.
unfoldable pub discard : ℕ → Stream → Result Stream
discard n r =
    if leb n (length r.bytes)
    then ok (record r { bytes = drop n r.bytes })
    else fail (reader_err r.fault)

-- `skipHeader`: the length of the variable part, and the reader behind it.
unfoldable pub skip_header : Stream → Result (ℕ × Stream)
unfolding discard
skip_header r =
    let (buf, err, r1) = read_full 30 r in
    let (sig, b) = uint 4 buf in
    let (filename_len, b) = uint 2 (drop 22 b) in
    let (extra_len, b) = uint 2 b in
    let skipped : Result (ℕ × Stream) = elim (discard (filename_len + extra_len) r1) [
      | fail e ↦ fail e
      | ok r2 ↦ ok (filename_len + extra_len, r2)
    ] in
    elim err [
      | some e ↦ fail (reader_err e)
      | none ↦ if sig == 67324752 then skipped else fail err_format
    ]

-- What is asked of `getRawReader` behind the header's fixed and compressed parts.
unfoldable pub variable_len : FileHeader → ℕ
variable_len h = length h.name + length h.extra + 512

-- The size that is asked of `getRawReader`; the sizes of the parts come to less than 2 ^ 63 wherever
-- something is proved.
unfoldable pub read_size : FileHeader → ℕ
unfolding has_data_desc variable_len
read_size h =
    (h.compressed_size64 + (if has_data_desc h then 16 else 0) + 30 + variable_len h) % 2 ^ 64

-- What `OpenWithReader` returns: the compressed bytes (`io.LimitReader` ends them), what the raw reader
-- gives behind them, and whether the body is to be inflated. A failure closes the raw reader.
pub record Opened : Type 0 where
  pub body : Stream
  pub behind : Stream
  pub inflate : Bool
  pub wants_desc : Bool

-- `io.LimitReader` over `r`.
unfoldable pub limited : ℕ → Stream → Stream
limited n r = record {
  bytes = take n r.bytes;
  fault = if leb n (length r.bytes) then eof else r.fault;
}

unfoldable pub open_raw : FileHeader → Stream → Result Opened
unfolding skip_header limited
open_raw h raw = elim (skip_header raw) [
  | fail e ↦ fail e
  | ok (n, r) ↦
      if ltb (variable_len h) n
      then fail header_length
      else ok (record {
        body = limited h.compressed_size64 r;
        behind = record r { bytes = drop h.compressed_size64 r.bytes };
        inflate = h.method == 8;
        wants_desc = has_data_desc h;
      })
]

-- `OpenWithReader`. `getRawReader` is a parameter.
unfoldable pub open_with_reader : FileHeader → (ℕ → ℕ → Result Stream) → Result Opened
unfolding read_size open_raw
open_with_reader h get_raw_reader =
    let opened : Result Opened = elim (get_raw_reader h.header_offset (read_size h)) [
      | fail e ↦ fail e
      | ok raw ↦ open_raw h raw
    ] in
    if (h.method == 0) || (h.method == 8) then opened else fail unsupported

-- `readDataDescriptor`: the signature may be missing. Of the two sizes behind the checksum it reads as
-- many bytes as fill its buffer up to 12.
unfoldable pub read_data_descriptor : Stream → ℕ → Option ZipErr
read_data_descriptor r crc32 =
    let (first, err, r1) = read_full 4 r in
    let signed = (uint 4 first).0 == 134695760 in
    let (more, err1, r2) = read_full (if signed then 12 else 8) r1 in
    let buf = if signed then more else first ++ more in
    elim err [
      | some e ↦ some (reader_err e)
      | none ↦ elim err1 [
        | some e ↦ some (reader_err e)
        | none ↦ if (uint 4 buf).0 == crc32 then none else some err_checksum
      ]
    ]
