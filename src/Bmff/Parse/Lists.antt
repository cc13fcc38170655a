-- ===== src/Bmff/Parse/Lists.antt =====
-- The QuickTime metadata lists of media/heif/bmff/quicktime.go: "keys" and "ilst".
use go.Common.{ℕ, zero, suc, ◌-◌, none, List, [], ◌∷◌, ltb, leb, if◌then◌else◌, length, take, drop}
use go.Bmff.Stream.{
  Err, eof, unexpected_eof, stuck, keys_size, list_item, Result, ok, err, Stream, be,
}
use go.Bmff.Fields.{read_uint32}
use go.Bmff.Reader.{Box, Header, Reader, plain, read_box, body_stream, consume, new_reader}
use go.Bmff.Boxes.{MetadataKey, KeysBox, DataBox, MetadataItem, ItemListBox}
use go.Bmff.Parser.{
  P, ◌>>=◌, ◌>>◌, pure, throw, lift, check, full_bytes, while_ok, tag, same_bytes, read_full_box,
  child_boxes,
}
use go.Bmff.Parse.Leaf.{parse_data}

-- `io.ReadAll` of an `io.LimitReader` of `n` bytes, which must all be there.
unfoldable pub limited_bytes : ℕ → P (List ℕ)
limited_bytes n br =
    if leb n (length bytes)
    then ok (take n bytes, record br { stream = record stream { bytes = drop n bytes } })
    else elim fault [ eof ↦ err unexpected_eof | e ↦ err e ]
  where
    open br use {stream, stream.{bytes, fault}}

unfoldable pub metadata_key : P MetadataKey
unfolding limited_bytes
metadata_key = do
  size ← lift read_uint32
  check
  _ ← (if ltb size 8 then throw (keys_size size) else pure tt)
  namespace ← full_bytes 4
  name ← limited_bytes (size - 8)
  pure (record { namespace = namespace; name = name })

unfoldable pub metadata_key_list : ℕ → P (List MetadataKey)
unfolding metadata_key
metadata_key_list zero = pure []
metadata_key_list (suc n) =
    while_ok [] (do k ← metadata_key; ks ← metadata_key_list n; pure (k ∷ ks))

unfoldable pub parse_keys : P KeysBox
unfolding metadata_key_list
parse_keys = do
  full ← read_full_box
  count ← lift read_uint32
  keys ← metadata_key_list count
  check
  pure (record { full = full; keys = keys })

-- One round over the boxes of a list item: the end, a box that is passed over, a value, or an error.
pub data ItemRound : Type 0 where
  done : ItemRound
  other : Reader → ItemRound
  value : DataBox → Reader → ItemRound
  broken : Err → ItemRound

-- A "data" box is parsed from its body, which that uses up; of any other the next `ReadBox` skips
-- the body.
unfoldable pub item_box : Header → Reader → ItemRound
unfolding parse_data
item_box h r =
    if same_bytes h.box_type (tag "data")
    then elim (parse_data (record { stream = body_stream r; sticky = none })) [
      | ok (d, _) ↦ value d (consume (length (body_stream r).bytes) r)
      | err e ↦ broken (list_item e)
    ]
    else other r

-- The item's bytes are in memory, and seeking in them or reading gives the same (`Reader.Seek`).
unfoldable pub next_item_box : Reader → ItemRound
unfolding item_box
next_item_box r =
    let (res, r') = read_box plain r in
    elim res [ err eof ↦ done | err e ↦ broken (list_item e) | ok h ↦ item_box h r' ]

unfoldable pub item_values : ℕ → Reader → Result (List DataBox)
item_values zero r = err stuck
item_values (suc fuel) r = elim (next_item_box r) [
  | done ↦ ok []
  | other r' ↦ item_values fuel r'
  | value d r' ↦ elim (item_values fuel r') [ ok ds ↦ ok (d ∷ ds) | err e ↦ err e ]
  | broken e ↦ err e
]

unfoldable pub metadata_items : List Box → Result (List MetadataItem)
metadata_items [] = ok []
metadata_items (b ∷ bs) =
    let rest = metadata_items bs in
    elim (item_values (suc (length b.slurp)) (new_reader body)) [
      | ok ds ↦ elim rest [
        | ok items ↦ ok (record { key_index = be b.header.box_type; values = ds } ∷ items)
        | err e ↦ err e
      ]
      | err e ↦ err e
    ]
  where
    body : Stream
    body = record { bytes = b.slurp; fault = eof }

unfoldable pub parse_item_list : P ItemListBox
unfolding metadata_items
parse_item_list = do
  boxes ← child_boxes
  items ← λ br. elim (metadata_items boxes) [ ok is' ↦ ok (is', br) | err e ↦ err e ]
  pure (record { items = items })
