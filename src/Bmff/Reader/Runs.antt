-- ===== src/Bmff/Reader/Runs.antt =====
-- Concrete runs of the box reader, and its theorems at concrete inputs.
use go.Common.{ℕ, ◌≡◌, ◌≢◌, refl, arith, true, false, List, [], ◌∷◌, All}
use go.Bmff.Stream.{ok, err, eof, source, stuck, read_full, be}
use go.Bmff.Encode.{be_bytes, Item, encode_boxes, Fits}
use go.Bmff.Parser.{tag}
use go.Bmff.Reader.{
  Header, Reader, limited, Source, plain, read_header, size_switch, read_box, skip_rest, new_reader,
  parse_append_boxes,
}
use go.Bmff.Reader.Position.{start, boxed, Stands, read_box-Stands}
use go.Bmff.Reader.Seek.{read_box_seek}
use go.Bmff.Reader.Children.{parse_append_boxes_items}
use go.Bmff.Reader.Items.{stream_of, boxes_at}
use go.Bmff.Reader.Total.{parse_append_boxes-ne-stuck}

-- A box of two bytes, and one of three with a size of 64 bits.
abbrev items : List Item
items =
    record { large = false; box_type = tag "free"; body = 7 ∷ 8 ∷ [] }
    ∷ record { large = true; box_type = tag "mdat"; body = 1 ∷ 2 ∷ 3 ∷ [] }
    ∷ []

abbrev file : List ℕ
file = 0 ∷ 0 ∷ 0 ∷ 10 ∷ 102 ∷ 114 ∷ 101 ∷ 101 ∷ 7 ∷ 8 ∷ 0 ∷ 0 ∷ 0 ∷ 8 ∷ 102 ∷ 114 ∷ 101 ∷ 101 ∷ []

encode_items :
    encode_boxes items
    ≡ 0 ∷ 0 ∷ 0 ∷ 10 ∷ 102 ∷ 114 ∷ 101 ∷ 101 ∷ 7 ∷ 8 ∷ 0 ∷ 0 ∷ 0 ∷ 1 ∷ 109 ∷ 100 ∷ 97 ∷ 116 ∷ 0 ∷ 0
      ∷ 0 ∷ 0 ∷ 0 ∷ 0 ∷ 0 ∷ 19 ∷ 1 ∷ 2 ∷ 3 ∷ []
unfolding encode_boxes be_bytes
encode_items = refl

abbrev first_header : Header
first_header = record { size = 10; box_type = tag "free"; offset = 0; header_size = 8 }

abbrev second_header : Header
second_header = record { size = 8; box_type = tag "free"; offset = 10; header_size = 8 }

abbrev after_first : Reader
after_first = record {
  stream = stream_of (7 ∷ 8 ∷ 0 ∷ 0 ∷ 0 ∷ 8 ∷ 102 ∷ 114 ∷ 101 ∷ 101 ∷ []) eof;
  pos = 10;
  last = limited 2;
  no_more = false;
}

abbrev after_second : Reader
after_second = record { stream = stream_of [] eof; pos = 18; last = limited 0; no_more = false }

-- A source that seeks, and holds one byte in its buffer.
abbrev seeking : Source
seeking = record { buffered = 1; seeker = true; seek_works = true }

abbrev begin : Reader
begin = new_reader (stream_of file eof)

read_first : read_box plain begin ≡ (ok first_header, after_first)
unfolding read_box read_header size_switch read_full new_reader be
read_first = refl

read_second : read_box seeking after_first ≡ (ok second_header, after_second)
unfolding read_box read_header size_switch read_full skip_rest be
read_second = refl

-- The second box of `file`, found by a seek.
read_box-Stands_example : Stands file second_header after_second
read_box-Stands_example =
    read_box-Stands seeking file after_second second_header (omega arith)
      (boxed plain first_header after_first (start eof) read_first) read_second

items-Fits : All Fits items
items-Fits =
    (record { four = refl; size = omega arith }, (record { four = refl; size = omega arith }, tt))

parse_append_boxes_items_example :
    parse_append_boxes (stream_of (encode_boxes items) eof) ≡ ok (boxes_at 0 items)
parse_append_boxes_items_example = parse_append_boxes_items items items-Fits (omega arith)

parse_append_boxes-ne-stuck_example : parse_append_boxes (stream_of file source) ≢ err stuck
parse_append_boxes-ne-stuck_example = parse_append_boxes-ne-stuck (stream_of file source) (λ e. cc)

read_box_seek_example :
    ((read_box seeking after_first).0 ≡ (read_box plain after_first).0)
    × ((h : Header) (r' : Reader)
        → read_box plain after_first ≡ (ok h, r')
        → read_box seeking after_first ≡ (ok h, r'))
read_box_seek_example = read_box_seek seeking after_first
