-- ===== src/Ziputil/OpenAt.antt =====
-- `OpenWithReader` of ziputil/ziputil.go on a file that is stored at the offset of its header.
use go.Common.{
  ℕ, ◌+◌, ◌-◌, ◌^◌, ◌≤◌, ◌<◌, ◌≡◌, refl, ap, ap₂, sym, ◌∙◌, arith, true, List, [], ◌++◌, length,
  take, drop, ◌==◌, leb, if◌then◌else◌, append_assoc, length-append, ◌⊎◌, take-append, drop-append,
  take-append_ge,
}
use go.Readerutil.Parts.{ReadErr, eof}
use go.Readerutil.Buffering.{Stream}
use go.Ziputil.ReadBuf.{Result, ok, put, uint-put, length-put}
use go.Ziputil.Header.{FileHeader}
use go.Ziputil.Open.{
  has_data_desc, skip_header, variable_len, read_size, open_raw, open_with_reader, limited,
}
use go.Ziputil.ReadBack.{read_full-append}

-- A local file header, with any bytes in the fields that are skipped.
unfoldable pub local_header : List ℕ → List ℕ → List ℕ → List ℕ
local_header skipped name extra =
    put 4 67324752 (skipped ++ put 2 (length name) (put 2 (length extra) [])) ++ (name ++ extra)

-- A local header is skipped, whatever it says but for its lengths.
pub skip_header-local_header :
    (skipped name extra more : List ℕ) (f : ReadErr)
    → length skipped ≡ 22
    → length name < 256 ^ 2
    → length extra < 256 ^ 2
    → skip_header (record { bytes = local_header skipped name extra ++ more; fault = f })
      ≡ ok (length name + length extra, record { bytes = more; fault = f })
unfolding skip_header local_header
skip_header-local_header skipped name extra more f s n e =
    let lengths = put 2 (length name) (put 2 (length extra) []) in
    let fixed = put 4 67324752 (skipped ++ lengths) in
    let a = append_assoc fixed (name ++ extra) more in
    let l : 30 ≡ length fixed = sym (
      length-put 4 67324752 (skipped ++ lengths)
      ∙ omega (
        arith,
        length-append skipped lengths,
        s,
        length-put 2 (length name) (put 2 (length extra) []),
        length-put 2 (length extra) [],
      )) in
    let p = read_full-append 30 fixed (name ++ extra ++ more) f l in
    let sig = uint-put 4 67324752 (skipped ++ lengths) (ground arith) in
    let at_lengths = drop-append 22 skipped lengths (omega (arith, s)) in
    let q = uint-put 2 (length name) (put 2 (length extra) []) n in
    let q1 = uint-put 2 (length extra) [] e in
    let rest =
      drop-append (length name + length extra) (name ++ extra) more
        (sym (length-append name extra)) in
    let enough : leb (length name + length extra) (length (name ++ extra ++ more)) ≡ true =
      ground (arith, length-append (name ++ extra) more, length-append name extra) in
    ground (arith, a, p, sig, at_lengths, q, q1, rest, enough)

length-local_header :
    (skipped name extra : List ℕ)
    → length skipped ≡ 22
    → length (local_header skipped name extra) ≡ 30 + length name + length extra
unfolding local_header
length-local_header skipped name extra s =
    let lengths = put 2 (length name) (put 2 (length extra) []) in
    omega (
      arith,
      s,
      length-append (put 4 67324752 (skipped ++ lengths)) (name ++ extra),
      length-append name extra,
      length-put 4 67324752 (skipped ++ lengths),
      length-append skipped lengths,
      length-put 2 (length name) (put 2 (length extra) []),
      length-put 2 (length extra) [],
    )

take-past : (i k : ℕ) (a b : List ℕ) → i ≡ length a → take (i + k) (a ++ b) ≡ a ++ take k b
take-past i k a b e =
    take-append_ge (i + k) a b (omega (arith, e))
    ∙ ap (λ j. a ++ take j b) {y = k} (omega (arith, e))

-- The bytes that are left for what stands behind the body.
unfoldable pub left_over : FileHeader → List ℕ → List ℕ → ℕ
unfolding has_data_desc variable_len
left_over h name extra =
    (if has_data_desc h then 16 else 0) + variable_len h - (length name + length extra)

-- A `getRawReader` that gives the wanted bytes of a file.
abbrev pub served : List ℕ → ℕ → ℕ → Result Stream
served file off n = ok (record { bytes = take n (drop off file); fault = eof })

-- For a file that is stored or deflated, where a local header of no more than the expected length stands
-- at the header's offset and the compressed bytes behind it, all of less than 2 ^ 63 bytes, the size that
-- is asked of `getRawReader` is enough: `OpenWithReader` gives exactly the compressed bytes, and the
-- reader behind them has what follows, as far as was asked for.
pub open_with_reader-local_header :
    (h : FileHeader) (before skipped name extra body after : List ℕ)
    → (h.method ≡ 0) ⊎ (h.method ≡ 8)
    → h.header_offset ≡ length before
    → h.compressed_size64 ≡ length body
    → length skipped ≡ 22
    → length name < 256 ^ 2
    → length extra < 256 ^ 2
    → length name + length extra ≤ variable_len h
    → length body + 46 + variable_len h < 2 ^ 63
    → let file = before ++ (local_header skipped name extra ++ (body ++ after)) in
      open_with_reader h (served file)
      ≡ ok (record {
        body = record { bytes = body; fault = eof };
        behind = record { bytes = take (left_over h name extra) after; fault = eof };
        inflate = h.method == 8;
        wants_desc = has_data_desc h;
      })
unfolding open_with_reader open_raw limited read_size left_over
open_with_reader-local_header h before skipped name extra body after method off comp s n e small
      fits =
    let local = local_header skipped name extra in
    let m = left_over h name extra in
    let ll = length-local_header skipped name extra s in
    let size : read_size h ≡ length local + (length body + m) =
      ground (arith, comp, ll, small, fits) in
    let raw : take (read_size h) (drop h.header_offset (before ++ (local ++ (body ++ after))))
        ≡ local ++ (body ++ take m after) =
      ap₂ (λ i t. take i t) size (drop-append h.header_offset before (local ++ (body ++ after)) off)
      ∙ take-past (length local) (length body + m) local (body ++ after) refl
      ∙ ap (λ t. local ++ t) (take-past (length body) m body after refl) in
    let skip = skip_header-local_header skipped name extra (body ++ take m after) eof s n e in
    let front = take-append h.compressed_size64 body (take m after) comp in
    let back = drop-append h.compressed_size64 body (take m after) comp in
    let enough : leb h.compressed_size64 (length (body ++ take m after)) ≡ true =
      ground (arith, comp, length-append body (take m after)) in
    ground (arith, method, raw, skip, front, back, enough, small)
