-- ===== src/Ziputil/Checksum/Sound.antt =====
-- What the bytes that a `checksumReader` of ziputil/ziputil.go delivers have to do with its error.
use go.Common.{
  ℕ, ◌+◌, ◌%◌, ◌^◌, ◌≤◌, ◌<◌, ◌≡◌, refl, ap, sym, ◌∙◌, subst, arith, Bool, true, false, ◌⊎◌, inl,
  inr, Option, none, some, List, [], ◌++◌, length, ◌==◌, if◌then◌else◌, Bool-cases, Option-cases,
  append-nil, length-append,
}
use go.Readerutil.Parts.{ReadErr, eof, unexpected_eof, stuck, failed}
use go.Readerutil.Buffering.{Stream}
use go.Ziputil.ReadBuf.{
  ZipErr, err_format, err_checksum, comment_length, invalid_arguments, unsupported, header_length,
  wrong_number, reader_err,
}
use go.Ziputil.Open.{read_data_descriptor}
use go.Ziputil.Checksum.{
  ChecksumReader, new_checksum_reader, set_err, desc_err, sum_err, final_err, outcome, read, Reads,
  opened, reads,
}

desc_err-eof : (x : Option ZipErr) (e : ZipErr) → desc_err x e ≡ reader_err eof → e ≡ reader_err eof
unfolding desc_err
desc_err-eof none e h = h
desc_err-eof (some (reader_err eof)) e h = absurd (ground (arith, h))
desc_err-eof (some (reader_err unexpected_eof)) e h = absurd (ground (arith, h))
desc_err-eof (some (reader_err stuck)) e h = absurd (ground (arith, h))
desc_err-eof (some (reader_err (failed n))) e h = absurd (ground (arith, h))
desc_err-eof (some err_format) e h = absurd (ground (arith, h))
desc_err-eof (some err_checksum) e h = absurd (ground (arith, h))
desc_err-eof (some comment_length) e h = absurd (ground (arith, h))
desc_err-eof (some invalid_arguments) e h = absurd (ground (arith, h))
desc_err-eof (some unsupported) e h = absurd (ground (arith, h))
desc_err-eof (some header_length) e h = absurd (ground (arith, h))
desc_err-eof (some (wrong_number a b)) e h = absurd (ground (arith, h))

set_err-none :
    (x : ZipErr) (r : ChecksumReader)
    → r.err ≡ none
    → set_err (some x) r ≡ record r { err = some x; raw_open = false }
unfolding set_err
set_err-none x r e = ground (arith, e)

module _ (sum32 : List ℕ → ℕ) where
  -- While there is no error all that was hashed was delivered; `io.EOF` is the error only of a body that
  -- is whole and has the right checksum, as far as there is one.
  record Sound (desc : Bool) (crc size : ℕ) (d : List ℕ) (r : ChecksumReader) : Type 0 where
    desc_same : r.wants_desc ≡ desc
    crc_same : r.crc32 ≡ crc
    size_same : r.size ≡ size
    all_hashed : r.err ≡ none → (r.hashed ≡ d) × (r.nread ≡ length d) × (length d ≤ size)
    true_end :
        r.err ≡ some (reader_err eof)
        → (length d ≡ size) × ((sum32 d ≡ crc) ⊎ ((desc ≡ false) × (crc ≡ 0)))

  final_err-eof :
      (rest : Stream) (r : ChecksumReader)
      → final_err sum32 rest r ≡ reader_err eof
      → (sum32 r.hashed ≡ r.crc32) ⊎ ((r.wants_desc ≡ false) × (r.crc32 ≡ 0))
  unfolding final_err
  final_err-eof rest r e = elim (Bool-cases r.wants_desc) [
    | inl desc ↦
        let right =
          desc_err-eof (read_data_descriptor rest r.crc32) (sum_err (sum32 r.hashed == r.crc32))
            (ground (arith, desc, e)) in
        inl (ground (arith, right))
    | inr no_desc ↦ ground (arith, no_desc, e)
  ]

  opened-Sound :
      (desc : Bool) (crc size : ℕ) → Sound desc crc size [] (new_checksum_reader desc crc size)
  unfolding new_checksum_reader
  opened-Sound desc crc size = record {
    desc_same = refl;
    crc_same = refl;
    size_same = refl;
    all_hashed = λ _. (refl, refl, omega arith);
    true_end = λ e. absurd (ground (arith, e));
  }

  outcome-none :
      (err : Option ReadErr) (rest : Stream) (r : ChecksumReader)
      → (outcome sum32 err rest r).1 ≡ none
      → ((outcome sum32 err rest r).0 ≡ true) × (r.nread ≤ r.size)
  unfolding outcome
  outcome-none none rest r e = ground (arith, e)
  outcome-none (some eof) rest r e = ground (arith, e)
  outcome-none (some unexpected_eof) rest r e = ground (arith, e)
  outcome-none (some stuck) rest r e = ground (arith, e)
  outcome-none (some (failed n)) rest r e = ground (arith, e)

  outcome-eof :
      (err : Option ReadErr) (rest : Stream) (r : ChecksumReader)
      → (outcome sum32 err rest r).1 ≡ some (reader_err eof)
      → ((outcome sum32 err rest r).0 ≡ true)
        × (r.nread ≡ r.size)
        × (final_err sum32 rest r ≡ reader_err eof)
  unfolding outcome
  outcome-eof none rest r e = ground (arith, e)
  outcome-eof (some eof) rest r e = ground (arith, e)
  outcome-eof (some unexpected_eof) rest r e = ground (arith, e)
  outcome-eof (some stuck) rest r e = ground (arith, e)
  outcome-eof (some (failed n)) rest r e = ground (arith, e)

  -- A reader behind its own error check, once the hash and the count are up to date.
  after : List ℕ → ChecksumReader → ChecksumReader
  after got r = record r { hashed = r.hashed ++ got; nread = (r.nread + length got) % 2 ^ 64 }

  settled-Sound :
      (desc : Bool) (crc size : ℕ) (d got : List ℕ) (err : Option ReadErr) (rest : Stream)
      (r : ChecksumReader)
      → r.err ≡ none
      → (r.wants_desc ≡ desc) × (r.crc32 ≡ crc) × (r.size ≡ size)
      → (r.hashed ≡ d ++ got) × (r.nread ≡ length (d ++ got))
      → Sound desc crc size
          (d ++ (if (outcome sum32 err rest r).0 then got else []))
          (set_err (outcome sum32 err rest r).1 r)
  unfolding set_err
  settled-Sound desc crc size d got err rest r running (a, b, c) (h, n) =
      elim (Option-cases (outcome sum32 err rest r).1) [
        | inl fine ↦
            let (delivers, small) = outcome-none err rest r fine in
            rw (fine, delivers)
              (record {
                desc_same = a;
                crc_same = b;
                size_same = c;
                all_hashed = λ _. (h, n, omega (arith, small, n, c));
                true_end = λ e. absurd (ground (arith, e, running));
              })
        | inr (x, over) ↦
            rw (over, set_err-none x r running)
              (record {
                desc_same = a;
                crc_same = b;
                size_same = c;
                all_hashed = λ e. absurd (ground (arith, e));
                true_end = λ e. ended (over ∙ e);
              })
      ]
    where
      ended :
          (outcome sum32 err rest r).1 ≡ some (reader_err eof)
          → (length (d ++ (if (outcome sum32 err rest r).0 then got else [])) ≡ size)
            × ((sum32 (d ++ (if (outcome sum32 err rest r).0 then got else [])) ≡ crc)
                ⊎ ((desc ≡ false) × (crc ≡ 0)))
      ended e =
          let (delivers, whole, right) = outcome-eof err rest r e in
          let sums = final_err-eof rest r right in
          rw delivers (
            sym n ∙ whole ∙ c,
            elim sums [
              | inl same ↦ inl (ap sum32 (sym h) ∙ same ∙ b)
              | inr (no_desc, unset) ↦ inr (sym a ∙ no_desc, sym b ∙ unset)
            ],
          )

  read-Sound :
      (desc : Bool) (crc size : ℕ) (d got : List ℕ) (err : Option ReadErr) (rest : Stream)
      (r : ChecksumReader)
      → size < 2 ^ 63
      → length got < 2 ^ 63
      → Sound desc crc size d r
      → Sound desc crc size (d ++ (read sum32 got err rest r).0) (read sum32 got err rest r).2
  unfolding read after
  read-Sound desc crc size d got err rest r b l s = elim (Option-cases r.err) [
    | inr (e0, stopped) ↦
        rw (stopped, append-nil d)
          (subst (λ x. Sound desc crc size d (record r { err = x })) stopped s)
    | inl running ↦
        let (h, n, small) = s.all_hashed running in
        rw running (
          settled-Sound desc crc size d got err rest (record (after got r) { err = none }) refl
            (s.desc_same, s.crc_same, s.size_same)
            (ap (λ t. t ++ got) h, omega (arith, n, small, b, l, length-append d got)))
  ]

  Reads-Sound :
      {desc : Bool} {crc size : ℕ} {d : List ℕ} {r : ChecksumReader}
      → size < 2 ^ 63
      → Reads sum32 (new_checksum_reader desc crc size) d r
      → Sound desc crc size d r
  Reads-Sound {desc} {crc} {size} b opened = opened-Sound desc crc size
  Reads-Sound {desc} {crc} {size} b (reads {d} {r} got err rest l p) =
      read-Sound desc crc size d got err rest r b l (Reads-Sound b p)

  -- Whatever the body and the raw reader give, in reads of less than 2 ^ 63 bytes each, for a size in the
  -- header below 2 ^ 63: where the reader's error is `io.EOF`, all the bytes that it has delivered are as
  -- many as the header's size says, and their sum is the header's, unless that is 0 and there is no data
  -- descriptor.
  pub eof_means_checked :
      {desc : Bool} {crc size : ℕ} {d : List ℕ} {r : ChecksumReader}
      → size < 2 ^ 63
      → Reads sum32 (new_checksum_reader desc crc size) d r
      → r.err ≡ some (reader_err eof)
      → (length d ≡ size) × ((sum32 d ≡ crc) ⊎ ((desc ≡ false) × (crc ≡ 0)))
  eof_means_checked b p e = (Reads-Sound b p).true_end e

  -- While the reader has no error, it has delivered no more than the header's size.
  pub never_longer :
      (desc : Bool) (crc size : ℕ) {d : List ℕ} {r : ChecksumReader}
      → size < 2 ^ 63
      → Reads sum32 (new_checksum_reader desc crc size) d r
      → r.err ≡ none
      → length d ≤ size
  never_longer desc crc size b p e = ((Reads-Sound b p).all_hashed e).2

  -- An error is final: once a `Read` has returned one, the raw reader is closed, and every later `Read`
  -- gives no byte and the same error, whatever the body would give.
  pub read-read :
      (got got1 : List ℕ) (err err1 : Option ReadErr) (rest rest1 : Stream) (r : ChecksumReader)
      (e : ZipErr)
      → r.err ≡ none
      → (read sum32 got err rest r).1 ≡ some e
      → (read sum32 got1 err1 rest1 (read sum32 got err rest r).2
          ≡ ([], some e, (read sum32 got err rest r).2))
        × ((read sum32 got err rest r).2.raw_open ≡ false)
  unfolding read set_err
  read-read got got1 err err1 rest rest1 r e running failed_with =
      ground (arith, running, failed_with)
