-- ===== src/Heif/Encode/ReadBack.antt =====
-- `EncodeImage` of media/heif/heif.go and the reading side: `PrimaryItem` and `Item.Data` of its file.
use go.Common.{
  ℕ, ◌+◌, ◌^◌, ◌≤◌, ◌<◌, ◌≡◌, refl, sym, ap, ap₂, ◌∙◌, arith, false, List, [], ◌∷◌, ◌++◌,
  append_assoc, length, length-append, All,
}
use go.Bmff.Encode.{Item, Fits, encode_box, encode_boxes}
use go.Bmff.Reader.Children.{total_length, length-encode_boxes}
use go.Bmff.Parser.{tag, same_bytes}
use go.Heif.File.{done, BoxMeta, load_meta}
use go.Heif.Items
use go.Heif.Items.{
  primary_item, item_by_id, find_info, find_location, last_info, last_location, item_data,
  extents_fit, extent_data, read_at, max_item_data_size, property_associations, item_properties,
  container,
}
use go.Heif.Encode.{append_box, ftyp_body, meta_body, build_meta, assemble, encode_image}
use go.Heif.Encode.Meta.{parse_body_meta, length-meta_body}
use go.Heif.Encode.Stored.{one_item, store_children_of}
use go.Heif.Encode.Written.{
  Written, boxes_of, properties_of, association_bytes, length-association_bytes,
  length-properties_of, property_bytes_of,
}
use go.Heif.Encode.Assembled.{
  item_of, primary_item_one, item_data_one, parse_body_ftyp, length-ftyp_body, front_of, mdat_head,
  offset_of, length-front_of, assemble_done,
}
use go.Heif.Encode.Loaded.{load_meta_boxes}

item_back :
    (b0 b1 b2 b3 a b c d : ℕ) (its : List Item) (ipma bytes file : List ℕ)
    → assemble (b0 ∷ b1 ∷ b2 ∷ b3 ∷ []) (a ∷ b ∷ c ∷ d ∷ []) (encode_boxes its) ipma bytes
      ≡ done file
    → All Fits its
    → length ipma < 2 ^ 8
    → 0 < length bytes
    → length bytes ≤ max_item_data_size
    → same_bytes (a ∷ b ∷ c ∷ d ∷ []) (tag "mime") ≡ false
    → same_bytes (a ∷ b ∷ c ∷ d ∷ []) (tag "uri ") ≡ false
    → (m : BoxMeta) × (it : Items.Item) × (load_meta file ≡ done m)
      × (primary_item m ≡ done it)
      × (it.info.item_type ≡ a ∷ b ∷ c ∷ d ∷ [])
      × (item_data file it ≡ done bytes)
unfolding build_meta append_box encode_box
item_back b0 b1 b2 b3 a b c d its ipma bytes file e f ha h0 h1 t1 t2 =
    let brand = b0 ∷ b1 ∷ b2 ∷ b3 ∷ [] in
    let item_type = a ∷ b ∷ c ∷ d ∷ [] in
    let n = length bytes in
    let off = offset_of brand item_type (encode_boxes its) ipma n in
    let front = front_of brand item_type (encode_boxes its) ipma off n in
    let mdat = mdat_head n ++ bytes in
    let meta = meta_body item_type (encode_boxes its) ipma off n in
    let (small_file, written) =
      assemble_done brand item_type (encode_boxes its) ipma bytes file e in
    let length_front = length-front_of b0 b1 b2 b3 a b c d off n (encode_boxes its) ipma in
    let off_eq : off ≡ total_length its + length ipma + 191 = omega (
      arith,
      length-front_of b0 b1 b2 b3 a b c d 0 n (encode_boxes its) ipma,
      length-append (append_box [] (tag "ftyp") (ftyp_body brand))
          (build_meta item_type (encode_boxes its) ipma 0 n),
      length-encode_boxes its f,
    ) in
    let whole =
      append_assoc (append_box [] (tag "ftyp") (ftyp_body brand))
        (build_meta item_type (encode_boxes its) ipma off n) mdat in
    let length_file : length (front ++ mdat) ≡ off + n = omega (
      arith,
      length_front,
      off_eq,
      length-encode_boxes its f,
      length-append front mdat,
      length-append (mdat_head n) bytes,
    ) in
    let at_data : length (front ++ mdat_head n) ≡ off =
      omega (
        arith,
        length_front,
        off_eq,
        length-encode_boxes its f,
        length-append front (mdat_head n),
      ) in
    let (ft, pf) = parse_body_ftyp b0 b1 b2 b3 in
    let (ie, st, i, t) =
      store_children_of ft a b c d off n its ipma (omega arith) f ha (omega arith) (omega arith) t1
        t2 in
    let load =
      load_meta_boxes (ftyp_body brand) meta mdat ft (one_item ft ie its ipma off n) _ pf
        (λ fuel. parse_body_meta fuel a b c d off n its ipma (omega arith) f) st
        (omega (arith, length-ftyp_body b0 b1 b2 b3))
        (omega (
          arith,
          length-meta_body a b c d off n (encode_boxes its) ipma,
          length-encode_boxes its f,
        ))
        (omega (arith, ap length whole, length_file, small_file)) in
    let contents =
      item_data_one ft ie its ipma (front ++ mdat_head n) bytes h0 h1
        (omega (arith, at_data, small_file)) in
    (
      one_item ft ie its ipma off n,
      item_of ft ie its ipma off n,
      ap load_meta (written ∙ whole) ∙ load,
      primary_item_one ft ie its ipma off n i,
      t,
      ap (λ xs. item_data xs (item_of ft ie its ipma off n))
            (written ∙ sym (append_assoc front (mdat_head n) bytes))
          ∙ ap (λ o. item_data ((front ++ mdat_head n) ++ bytes) (item_of ft ie its ipma o n))
              (sym at_data)
          ∙ contents,
    )

four_bytes : (xs : List ℕ) → length xs ≡ 4 → (a b c d : ℕ) × (xs ≡ a ∷ b ∷ c ∷ d ∷ [])
four_bytes [] h = absurd (omega (arith, h))
four_bytes (a ∷ []) h = absurd (omega (arith, h))
four_bytes (a ∷ b ∷ []) h = absurd (omega (arith, h))
four_bytes (a ∷ b ∷ c ∷ []) h = absurd (omega (arith, h))
four_bytes (a ∷ b ∷ c ∷ d ∷ []) h = (a, b, c, d, refl)
four_bytes (a ∷ b ∷ c ∷ d ∷ x ∷ xs) h = absurd (omega (arith, h))

encode_image_done :
    (brand item_type : List ℕ) (ws : List Written) (bytes file : List ℕ)
    → encode_image brand item_type (properties_of ws) bytes ≡ done file
    → All Fits (boxes_of ws)
    → (length brand ≡ 4)
      × (length item_type ≡ 4)
      × (length ws ≤ 127)
      × (assemble brand item_type (encode_boxes (boxes_of ws)) (association_bytes 0 ws) bytes
          ≡ done file)
unfolding encode_image
encode_image_done brand item_type ws bytes file e f =
    let props = property_bytes_of 0 ws f in
    let count = length-properties_of ws in
    (
      ground (arith, e, props, count),
      ground (arith, e, props, count),
      ground (arith, e, props, count),
      ground (arith, e, props, count),
    )

-- If `EncodeImage` gives a file, for properties that are boxes with 32-bit sizes, for some data of at
-- most 64 MiB and for an item type other than "mime" and "uri ", then the metadata of the file can be
-- read, its primary item has the given type, and the data of that item are the given bytes.
pub encode_image-item_data :
    (brand item_type : List ℕ) (ws : List Written) (bytes file : List ℕ)
    → encode_image brand item_type (properties_of ws) bytes ≡ done file
    → All Fits (boxes_of ws)
    → 0 < length bytes
    → length bytes ≤ max_item_data_size
    → same_bytes item_type (tag "mime") ≡ false
    → same_bytes item_type (tag "uri ") ≡ false
    → (m : BoxMeta) × (it : Items.Item) × (load_meta file ≡ done m)
      × (primary_item m ≡ done it)
      × (it.info.item_type ≡ item_type)
      × (item_data file it ≡ done bytes)
encode_image-item_data brand item_type ws bytes file e f h0 h1 t1 t2 =
    let (four_brand, four_type, few, assembled) =
      encode_image_done brand item_type ws bytes file e f in
    let (b0, b1, b2, b3, eb) = four_bytes brand four_brand in
    let (a, b, c, d, et) = four_bytes item_type four_type in
    let its = boxes_of ws in
    let ipma = association_bytes 0 ws in
    let (m, it, load, primary, t, contents) =
      item_back b0 b1 b2 b3 a b c d its ipma bytes file
        (ap₂ (λ x y. assemble x y (encode_boxes its) ipma bytes) (sym eb) (sym et) ∙ assembled) f
        (omega (arith, length-association_bytes 0 ws)) h0 h1
        (ap (λ x. same_bytes x (tag "mime")) (sym et) ∙ t1)
        (ap (λ x. same_bytes x (tag "uri ")) (sym et) ∙ t2) in
    (m, it, load, primary, t ∙ sym et, contents)
