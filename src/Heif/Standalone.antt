-- ===== src/Heif/Standalone.antt =====
-- `StandaloneHEIF` of media/heif/heif.go: the file it makes of an item gives that item's data.
use go.Common.{
  ℕ, zero, suc, ◌+◌, ◌-◌, ◌%◌, ◌^◌, ◌≤◌, ◌<◌, ◌≡◌, ◌≢◌, refl, ap, subst, ◌∙◌, arith, true, false,
  List, [], ◌∷◌, ◌++◌, ◌==◌, if◌then◌else◌, length, length-append, length-take, length-drop, drop,
  All, Option, none, some, get_elem?, Bool-cases, ◌⊎◌, inl, inr,
}
use go.Bmff.Encode.{Fits, encode_box}
use go.Bmff.Reader.{Box}
use go.Bmff.Boxes.{OffsetLength, ItemProperty}
use go.Bmff.Parser.{tag, same_bytes}
use go.Heif.File.{HeifErr, Outcome, done, fail, BoxMeta, load_meta}
use go.Heif.Items
use go.Heif.Items.{
  item_data, extents_fit, extent_data, read_at, max_item_data_size, primary_item, container,
  property_associations,
}
use go.Heif.Derived.{standalone_heif, standalone_properties, is_derived, major_brand}
use go.Heif.Encode.{append_box, encode_image}
use go.Heif.Encode.Pieces.{small}
use go.Heif.Encode.Written.{Written, properties_of, boxes_of}
use go.Heif.Encode.ReadBack.{encode_image-item_data}

read_at-length :
    (ra : List ℕ) (n off : ℕ) (part : List ℕ) → read_at ra n off ≡ some part → length part ≡ n
unfolding read_at
read_at-length ra n off part e = ground (arith, e, length-take n (drop off ra), length-drop off ra)

option_cases {ℓ} : {A : Type ℓ} (o : Option A) → (o ≡ none) ⊎ ((a : A) × (o ≡ some a))
option_cases none = inl refl
option_cases (some a) = inr (a, refl)

outcome_cases :
    {A : Type 0} (o : Outcome A) → ((a : A) × (o ≡ done a)) ⊎ ((x : HeifErr) × (o ≡ fail x))
outcome_cases (done a) = inl (a, refl)
outcome_cases (fail x) = inr (x, refl)

-- The data come to no more than the limit, and are not empty if there is an extent.
length-extent_data :
    (ra : List ℕ) (base total : ℕ) (es : List OffsetLength) (contents : List ℕ)
    → extents_fit total es ≡ true
    → total ≤ max_item_data_size
    → extent_data ra base es ≡ done contents
    → (total + length contents ≤ max_item_data_size) × (0 < length es → 0 < length contents)
unfolding extents_fit extent_data
length-extent_data ra base total [] contents f h e = ground (arith, e)
length-extent_data ra base total (x ∷ es) contents f h e =
    let off = (base + x.offset) % 2 ^ 64 in
    elim (option_cases (read_at ra x.extent_length off)) [
      | inl q ↦ absurd (ground (arith, q, e))
      | inr (part, q) ↦ elim (outcome_cases (extent_data ra base es)) [
        | inl (more, d) ↦
            let c : contents ≡ part ++ more = ground (arith, q, d, e) in
            let fits : extents_fit (total + x.extent_length) es ≡ true = ground (arith, f) in
            let room : (x.extent_length ≢ 0) × (total + x.extent_length ≤ max_item_data_size) =
              (ground (arith, f, h), ground (arith, f, h)) in
            let ih = length-extent_data ra base (total + x.extent_length) es more fits room.1 d in
            let l = read_at-length ra x.extent_length off part q in
            let lc : length contents ≡ length part + length more =
              ap length c ∙ length-append part more in
            (omega (arith, ih.0, l, lc), λ _. omega (arith, room.0, l, lc))
        | inr (x', d) ↦ absurd (ground (arith, q, d, e))
      ]
    ]

-- The property boxes of the container that an item's associations name, as they are written.
written : List Box → List ItemProperty → List Written
written boxes [] = []
written boxes (a ∷ as') =
    let rest = written boxes as' in
    if a.index == 0 then rest else elim (get_elem? boxes (a.index - 1)) [
      | none ↦ rest
      | some b ↦
          record { box_type = b.header.box_type; body = b.slurp; essential = a.essential } ∷ rest
    ]

properties_of-written :
    (boxes : List Box) (as' : List ItemProperty)
    → properties_of (written boxes as') ≡ standalone_properties boxes as'
unfolding written standalone_properties append_box encode_box
properties_of-written boxes [] = refl
properties_of-written boxes (a ∷ as') =
    let ih = properties_of-written boxes as' in
    elim (Bool-cases (a.index == 0)) [
      | inl z ↦ rw z ih
      | inr n ↦ elim (option_cases (get_elem? boxes (a.index - 1))) [
        | inl e ↦ rw (n, e) ih
        | inr (b, e) ↦
            rw (n, e)
              (ap
                (λ t.
                  record {
                    box = encode_box (small b.header.box_type b.slurp);
                    essential = a.essential;
                  }
                  ∷ t)
                ih)
      ]
    ]

abbrev pub BoxFits : Box → Type 0
BoxFits b = Fits (small b.header.box_type b.slurp)

All-get :
    (boxes : List Box) (i : ℕ) (b : Box)
    → All BoxFits boxes
    → get_elem? boxes i ≡ some b
    → BoxFits b
All-get [] i b h e = absurd (ground (arith, e))
All-get (x ∷ boxes) zero b h e =
    let same : x ≡ b = ground (arith, e) in
    subst (λ y. Fits (small y.header.box_type y.slurp)) same h.0
All-get (x ∷ boxes) (suc i) b h e = All-get boxes i b h.1 e

written-Fits :
    (boxes : List Box) (as' : List ItemProperty)
    → All BoxFits boxes
    → All Fits (boxes_of (written boxes as'))
unfolding written
written-Fits boxes [] h = tt
written-Fits boxes (a ∷ as') h =
    let ih = written-Fits boxes as' h in
    elim (Bool-cases (a.index == 0)) [
      | inl z ↦ rw z ih
      | inr n ↦ elim (option_cases (get_elem? boxes (a.index - 1))) [
        | inl e ↦ rw (n, e) ih
        | inr (b, e) ↦ rw (n, e) (All-get boxes (a.index - 1) b h e, ih)
      ]
    ]

item_data-size :
    (ra : List ℕ) (it : Items.Item) (contents : List ℕ)
    → item_data ra it ≡ done contents
    → (0 < length contents) × (length contents ≤ max_item_data_size)
unfolding item_data
item_data-size ra it contents e = elim (option_cases it.location) [
  | inl none_given ↦ absurd (ground (arith, none_given, e))
  | inr (loc, given) ↦
      let fits : extents_fit 0 loc.extents ≡ true = ground (arith, given, e) in
      let some_given : length loc.extents ≢ 0 = ground (arith, given, e) in
      let read : extent_data ra loc.base_offset loc.extents ≡ done contents =
        ground (arith, given, e) in
      let size =
        length-extent_data ra loc.base_offset 0 loc.extents contents fits (omega arith) read in
      (size.1 (omega (arith, some_given)), omega (arith, size.0))
]

not_text :
    (ty : List ℕ)
    → is_derived ty ≡ false
    → (same_bytes ty (tag "mime") ≡ false) × (same_bytes ty (tag "uri ") ≡ false)
unfolding is_derived
not_text ty e = (ground (arith, e), ground (arith, e))

-- If `StandaloneHEIF` gives a file for an item, and the property boxes of the metadata fit into boxes
-- with 32-bit sizes, then the item has data, the metadata of the new file can be read, and its primary
-- item has the type and the data of the item.
pub standalone_heif-item_data :
    (ra : List ℕ) (m : BoxMeta) (it : Items.Item) (file : List ℕ)
    → standalone_heif ra m it ≡ done file
    → All BoxFits (container m)
    → (contents : List ℕ) × (bm : BoxMeta) × (it' : Items.Item) × (item_data ra it ≡ done contents)
      × (load_meta file ≡ done bm)
      × (primary_item bm ≡ done it')
      × (it'.info.item_type ≡ it.info.item_type)
      × (item_data file it' ≡ done contents)
unfolding standalone_heif
standalone_heif-item_data ra m it file e h = elim (Bool-cases (is_derived it.info.item_type)) [
  | inl derived ↦ absurd (ground (arith, derived, e))
  | inr coded ↦ elim (outcome_cases (item_data ra it)) [
    | inr (x, q) ↦ absurd (ground (arith, coded, q, e))
    | inl (contents, q) ↦
        let associations = property_associations m it.id in
        let encoded : encode_image (major_brand m) it.info.item_type
              (standalone_properties (container m) associations) contents
            ≡ done file =
          ground (arith, coded, q, e) in
        let size = item_data-size ra it contents q in
        let text = not_text it.info.item_type coded in
        let (bm, it', load, primary, ty, same) =
          encode_image-item_data (major_brand m) it.info.item_type
            (written (container m) associations) contents file
            (ap (λ ps. encode_image (major_brand m) it.info.item_type ps contents)
                (properties_of-written (container m) associations)
              ∙ encoded)
            (written-Fits (container m) associations h) size.0 size.1 text.0 text.1 in
        (contents, bm, it', q, load, primary, ty, same)
  ]
]
