-- ===== src/Bmff/Reader.antt =====
-- `Reader` of media/heif/bmff/bmff.go: `ReadBox`, `skipRest`, `readBody` and `parseAppendBoxes`.
-- An `int64` offset is its bit pattern, a number below 2 ^ 64, and wraps.
pub mod Position
pub mod Seek
pub mod Items
pub mod Children
pub mod Total
mod Runs
use go.Common.{
  ℕ, zero, suc, ◌+◌, ◌-◌, ◌*◌, ◌%◌, ◌^◌, ◌≡◌, Bool, true, false, Option, none, some, List, [], ◌∷◌,
  ◌++◌, ◌==◌, ◌||◌, ◌&&◌, not, ltb, leb, if◌then◌else◌, length, take, drop,
}
use go.Bmff.Stream.{
  Err, eof, stuck, unexpected_eof, large_box, negative_body, Result, ok, err, Stream, read_full,
  is_empty, be,
}

-- The fields of `box` that `ReadBox` sets. The size 0 means that the box goes on to the end.
pub record Header : Type 0 where
  pub size : ℕ
  pub box_type : List ℕ
  pub offset : ℕ
  pub header_size : ℕ

-- A box whose body has been read into memory, as those inside another box are.
pub record Box : Type 0 where
  pub header : Header
  pub slurp : List ℕ

-- `lastBox`: none yet, one that goes on to the end, or one with so many bytes left to read.
pub data Last : Type 0 where
  unread open_ended : Last
  limited : ℕ → Last

pub record Reader : Type 0 where
  pub stream : Stream
  pub pos : ℕ
  pub last : Last
  pub no_more : Bool

-- What the source answers during one call: how many of the next bytes the buffer holds, whether the
-- source is an `io.Seeker`, and whether `Seek` succeeds.
pub record Source : Type 0 where
  pub buffered : ℕ
  pub seeker : Bool
  pub seek_works : Bool

-- The end of the input is no error of `io.Copy`.
abbrev pub copy_error : Err → Option Err
copy_error eof = none
copy_error e = some e

-- `io.Copy(io.Discard, lr)`
unfoldable pub copy_rest : ℕ → Reader → Option Err × Reader
copy_rest n r =
    if leb n (length bytes)
    then (none, record r { stream = record r.stream { bytes = drop n bytes }; last = limited 0 })
    else (
      copy_error fault,
      record r { stream = record r.stream { bytes = [] }; last = limited (n - length bytes) },
    )
  where
    open r.stream use {bytes, fault}

-- A seek moves the source, which stands behind the buffered bytes; `Reset` drops those.
unfoldable pub skip_rest : Source → ℕ → Reader → Option Err × Reader
unfolding copy_rest
skip_rest src n r =
    if src.seeker && (ltb src.buffered n && src.seek_works)
    then (none, record r { stream = record r.stream { bytes = past }; last = limited 0 })
    else copy_rest n r
  where
    past : List ℕ
    past = drop (n - src.buffered) (drop src.buffered r.stream.bytes)

-- `io.ReadFull` of the next `n` bytes, with what is done with them.
abbrev pub with_full :
    ℕ → Reader → (List ℕ → Reader → Result Header × Reader) → Result Header × Reader
with_full n r k =
    let (res, s) = read_full n r.stream in
    elim res [ ok buf ↦ k buf (record r { stream = s }) | err e ↦ (err e, record r { stream = s }) ]

-- A box of a known size, of which `header_size` bytes are read.
unfoldable pub sized_box : ℕ → ℕ → List ℕ → Reader → Result Header × Reader
sized_box size header_size box_type r = if ltb size header_size then (err negative_body, r) else (
  ok (record { size = size; box_type = box_type; offset = r.pos; header_size = header_size }),
  record r { pos = (r.pos + size) % 2 ^ 64; last = limited (size - header_size) },
)

-- A 64-bit size; an `int64` cannot hold one of 2 ^ 63 or more.
unfoldable pub long_box : List ℕ → List ℕ → Reader → Result Header × Reader
unfolding sized_box
long_box box_type buf r =
    if leb (2 ^ 63) (be buf) then (err large_box, r) else sized_box (be buf) 16 box_type r

-- The switch on the 32-bit size.
unfoldable pub size_switch : ℕ → List ℕ → Reader → Result Header × Reader
unfolding long_box
size_switch size box_type r =
    if size == 1
    then with_full 8 r (long_box box_type)
    else if size == 0
    then (
      ok (record { size = 0; box_type = box_type; offset = r.pos; header_size = 8 }),
      record r { last = open_ended; no_more = true },
    )
    else sized_box size 8 box_type r

unfoldable pub read_header : Reader → Result Header × Reader
unfolding size_switch
read_header r = with_full 4 r (λ size r'. with_full 4 r' (size_switch (be size)))

abbrev pub unless_failed :
    Option Err × Reader → (Reader → Result Header × Reader) → Result Header × Reader
unless_failed (none, r) k = k r
unless_failed (some e, r) k = (err e, r)

unfoldable pub read_box : Source → Reader → Result Header × Reader
read_box src r = if r.no_more then (err eof, r) else elim r.last [
  | unread ↦ read_header r
  | open_ended ↦ read_header r
  | limited n ↦ unless_failed (skip_rest src n r) read_header
]

-- The body of the last box as a stream of its own: `io.LimitReader`, or the rest of the input.
unfoldable pub body_stream : Reader → Stream
body_stream r = elim r.last [
  | limited n ↦ record {
    bytes = take n r.stream.bytes;
    fault = if leb n (length r.stream.bytes) then eof else r.stream.fault;
  }
  | _ ↦ r.stream
]

-- The reader after `k` bytes of the body have been read.
unfoldable pub consume : ℕ → Reader → Reader
consume k r = record r {
  stream = record r.stream { bytes = drop k r.stream.bytes };
  last = elim r.last [ limited n ↦ limited (n - k) | l ↦ l ];
}

-- A new reader of a stream that is no `io.Seeker`, such as a `*bufio.Reader`.
unfoldable pub new_reader : Stream → Reader
new_reader s = record { stream = s; pos = 0; last = unread; no_more = false }

abbrev pub plain : Source
plain = record { buffered = 0; seeker = false; seek_works = false }

-- `io.ReadAll`
unfoldable pub read_all : Stream → Result (List ℕ)
read_all s = elim s.fault [ eof ↦ ok s.bytes | e ↦ err e ]

-- `io.ReadFull` into a buffer of `n` bytes; a body that is cut short is no error.
unfoldable pub read_prealloc : ℕ → Stream → Result (List ℕ)
unfolding read_full
read_prealloc n s = elim (read_full n s).0 [
  | ok buf ↦ ok buf
  | err eof ↦ ok s.bytes
  | err unexpected_eof ↦ ok s.bytes
  | err e ↦ err e
]

abbrev pub max_prealloc : ℕ
max_prealloc = 2 ^ 20

unfoldable pub read_body : Header → Reader → Result (List ℕ) × Reader
unfolding read_prealloc read_all body_stream consume
read_body h r =
    let n = h.size - h.header_size in
    let s = body_stream r in
    (
      if h.size == 0 || ltb max_prealloc n then read_all s else read_prealloc n s,
      consume (length s.bytes) r,
    )

-- One round of the loop of `parseAppendBoxes`: the end, a box and its body, or an error.
pub data Round : Type 0 where
  stop : Round
  more : Box → Reader → Round
  failed : Err → Round

abbrev pub slurped : Header → Result (List ℕ) × Reader → Round
slurped h (ok slurp, r) = more (record { header = h; slurp = slurp }) r
slurped h (err e, r) = failed e

unfoldable pub next_child : Reader → Round
next_child r =
    let (res, r') = read_box plain r in
    elim res [ err eof ↦ stop | err e ↦ failed e | ok h ↦ slurped h (read_body h r') ]

-- The loop, with fuel.
unfoldable pub append_boxes : ℕ → Reader → List Box → Result (List Box)
append_boxes zero r acc = err stuck
append_boxes (suc fuel) r acc = elim (next_child r) [
  | stop ↦ ok acc
  | more b r' ↦ append_boxes fuel r' (acc ++ (b ∷ []))
  | failed e ↦ err e
]

-- Each box takes eight bytes at least, so that much fuel is enough.
unfoldable pub parse_append_boxes : Stream → Result (List Box)
parse_append_boxes s = append_boxes (suc (length s.bytes)) (new_reader s) []
