-- ===== src/Ziputil/Header/Extras.antt =====
-- The loop `parseExtras` of `readDirectoryHeader` in ziputil/ziputil.go.
use Prim.Native.Nat.{bit_and}
use go.Common.{
  ℕ, zero, suc, Bool, true, false, not, ◌||◌, Option, none, some, List, length, ◌==◌, ltb,
  if◌then◌else◌,
}
use go.Ziputil.ReadBuf.{err_format, Result, ok, fail, uint, sub}

-- A time: ticks of 100 ns since 1601 (as a `uint64`, of which the code takes the `int64`), or seconds
-- since 1970.
pub data Stamp : Type 0 where
  ntfs_ticks unix_seconds : ℕ → Stamp

-- The variables that the loop changes.
pub record Found : Type 0 where
  pub need_usize : Bool
  pub need_csize : Bool
  pub need_header_offset : Bool
  pub usize : ℕ
  pub csize : ℕ
  pub header_offset : ℕ
  pub modified : Option Stamp

-- One of the three 64-bit values of the zip64 field, where it is wanted.
unfoldable pub zip64_value : Bool → ℕ → List ℕ → Option (ℕ × List ℕ)
zip64_value need old b =
    if need then (if ltb (length b) 8 then none else some (uint 8 b)) else some (old, b)

unfoldable pub zip64_field : Found → List ℕ → Result Found
unfolding zip64_value
zip64_field f b = elim (zip64_value f.need_usize f.usize b) [
  | none ↦ fail err_format
  | some (usize, b1) ↦ elim (zip64_value f.need_csize f.csize b1) [
    | none ↦ fail err_format
    | some (csize, b2) ↦ elim (zip64_value f.need_header_offset f.header_offset b2) [
      | none ↦ fail err_format
      | some (off, b3) ↦ ok (record f {
        need_usize = false;
        need_csize = false;
        need_header_offset = false;
        usize = usize;
        csize = csize;
        header_offset = off;
      })
    ]
  ]
]

-- The attributes of an NTFS field. A round takes four bytes at least.
unfoldable pub ntfs_attributes : ℕ → Option Stamp → List ℕ → Option Stamp
ntfs_attributes zero modified b = modified
ntfs_attributes (suc fuel) modified b =
    let (attr_tag, b1) = uint 2 b in
    let (attr_size, b2) = uint 2 b1 in
    let (attr, b3) = sub attr_size b2 in
    let ignored = ntfs_attributes fuel modified b3 in
    let taken = ntfs_attributes fuel (some (ntfs_ticks (uint 8 attr).0)) b3 in
    if ltb (length b) 4
    then modified
    else if ltb (length b2) attr_size
    then modified
    else if not (attr_tag == 1) || not (attr_size == 24)
    then ignored
    else taken

unfoldable pub ntfs_field : Option Stamp → List ℕ → Option Stamp
unfolding ntfs_attributes
ntfs_field modified b =
    if ltb (length b) 4 then modified else ntfs_attributes (length b) modified (uint 4 b).1

unfoldable pub unix_field : Option Stamp → List ℕ → Option Stamp
unix_field modified b =
    if ltb (length b) 8 then modified else some (unix_seconds (uint 4 (uint 4 b).1).0)

unfoldable pub ext_time_field : Option Stamp → List ℕ → Option Stamp
ext_time_field modified b =
    let (flags, b1) = uint 1 b in
    if ltb (length b) 5 || (bit_and flags 1 == 0)
    then modified
    else some (unix_seconds (uint 4 b1).0)

-- The `switch` on the tag.
unfoldable pub read_extra : ℕ → List ℕ → Found → Result Found
unfolding zip64_field ntfs_field unix_field ext_time_field
read_extra field_tag b f =
    if field_tag == 1
    then zip64_field f b
    else if field_tag == 10
    then ok (record f { modified = ntfs_field f.modified b })
    else if (field_tag == 13) || (field_tag == 22613)
    then ok (record f { modified = unix_field f.modified b })
    else if field_tag == 21589
    then ok (record f { modified = ext_time_field f.modified b })
    else ok f

-- The loop over the fields. A round takes four bytes at least.
unfoldable pub extras_loop : ℕ → Found → List ℕ → Result Found
unfolding read_extra
extras_loop zero f extra = ok f
extras_loop (suc fuel) f extra =
    let (field_tag, b1) = uint 2 extra in
    let (field_size, b2) = uint 2 b1 in
    let (field, b3) = sub field_size b2 in
    elim (ltb (length extra) 4 || ltb (length b2) field_size) [
      | true ↦ ok f
      | false ↦ elim (read_extra field_tag field f) [
        | fail e ↦ fail e
        | ok f1 ↦ extras_loop fuel f1 b3
      ]
    ]

unfoldable pub read_extras : Found → List ℕ → Result Found
unfolding extras_loop
read_extras f extra = extras_loop (length extra) f extra
