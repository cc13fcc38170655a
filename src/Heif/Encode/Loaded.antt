-- ===== src/Heif/Encode/Loaded.antt =====
-- `getMeta` of media/heif/heif.go on a whole file of `EncodeImage`.
use go.Common.{
  ℕ, suc, ◌+◌, ◌%◌, ◌^◌, ◌<◌, ◌≡◌, refl, ap, arith, true, false, List, ◌++◌, length, length-append,
  some, take-length_append, drop-length_append, take_of_le, inl,
}
use go.Bmff.Stream.{eof, ok}
use go.Bmff.Encode.{Item, Fits, box_length, encode_box}
use go.Bmff.Reader.{Reader, plain, limited, read_box, skip_rest, copy_rest, new_reader, body_stream}
use go.Bmff.Reader.Items.{stream_of, box_at, opened, read_header_item, read_box_item}
use go.Bmff.Boxes
use go.Bmff.Boxes.{FileTypeBox, ItemInfoEntry, Parsed}
use go.Bmff.Parser.{tag, same_bytes}
use go.Bmff.Parse.{parse_body}
use go.Heif.File.{
  done, BoxMeta, no_meta, read_and_parse, load_meta, store_children, assumed_max_size,
}
use go.Heif.Encode.Pieces.{small}

-- The reader before the next box, where the last one has not been read.
abbrev beyond : Item → List ℕ → Reader → Reader
beyond it rest r = record (opened it rest r) {
  stream = stream_of rest r.stream.fault;
  last = limited 0;
}

read_box_next :
    (it it2 : Item) (rest : List ℕ) (r : Reader)
    → Fits it2
    → r.no_more ≡ false
    → read_box plain (opened it (encode_box it2 ++ rest) r) ≡ (
      ok (box_at ((r.pos + box_length it) % 2 ^ 64) it2).header,
      opened it2 rest (beyond it (encode_box it2 ++ rest) r),
    )
unfolding read_box skip_rest copy_rest
read_box_next it it2 rest r f m = ground (
  arith,
  read_header_item it2 rest (beyond it (encode_box it2 ++ rest) r) f refl,
  length-append it.body (encode_box it2 ++ rest),
  drop-length_append it.body (encode_box it2 ++ rest),
)

body_stream-opened :
    (it : Item) (rest : List ℕ) (r : Reader)
    → body_stream (opened it rest r) ≡ stream_of it.body eof
unfolding body_stream
body_stream-opened it rest r =
    ground (arith, length-append it.body rest, take-length_append it.body rest)

read_and_parse-opened :
    (it : Item) (rest : List ℕ) (r r' : Reader) (at : ℕ) (v : Parsed)
    → read_box plain r ≡ (ok (box_at at it).header, opened it rest r')
    → same_bytes it.box_type it.box_type ≡ true
    → ((fuel : ℕ) → parse_body (suc fuel) it.box_type (stream_of it.body eof) ≡ ok v)
    → read_and_parse it.box_type r ≡ done (v, opened it rest r')
unfolding read_and_parse
read_and_parse-opened it rest r r' at v e t p =
    rw (read_and_parse, e, t, ap (λ q. q.1) e, body_stream-opened it rest r', p (length it.body))
      (ap (λ q. done (v, q.1)) e)

-- A file that is a box of the type "ftyp", a "meta" box and another.
pub load_meta_boxes :
    (ftyp meta mdat : List ℕ) (ft : FileTypeBox) (bm : BoxMeta) (mb : Boxes.MetaBox)
    → ((fuel : ℕ)
        → parse_body (suc fuel) (tag "ftyp") (stream_of ftyp eof) ≡ ok (Boxes.file_type ft))
    → ((fuel : ℕ) → parse_body (suc fuel) (tag "meta") (stream_of meta eof) ≡ ok (Boxes.meta mb))
    → store_children mb.children (record no_meta { file_type = some ft }) ≡ done bm
    → 8 + length ftyp < 2 ^ 32
    → 8 + length meta < 2 ^ 32
    → length
        (encode_box (small (tag "ftyp") ftyp) ++ (encode_box (small (tag "meta") meta) ++ mdat))
      < 2 ^ 32
    → load_meta
        (encode_box (small (tag "ftyp") ftyp) ++ (encode_box (small (tag "meta") meta) ++ mdat))
      ≡ done bm
unfolding load_meta new_reader
load_meta_boxes ftyp meta mdat ft bm mb pf pm st hf hm hl =
    let f : Item = small (tag "ftyp") ftyp in
    let m : Item = small (tag "meta") meta in
    let rest = encode_box m ++ mdat in
    let file = encode_box f ++ rest in
    let r = new_reader (stream_of file eof) in
    let one =
      read_and_parse-opened f rest r r 0 (Boxes.file_type ft)
        (read_box_item f rest r (record { four = refl; size = hf }) (inl refl) refl refl) refl pf in
    let two =
      read_and_parse-opened m mdat (opened f rest r) (beyond f rest r) _ (Boxes.meta mb)
        (read_box_next f m mdat r (record { four = refl; size = hm }) refl) refl pm in
    rw (load_meta, take_of_le assumed_max_size file (omega arith), one, two, st)
