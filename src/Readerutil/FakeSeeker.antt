-- ===== src/Readerutil/FakeSeeker.antt =====
-- `fakeSeeker` of readerutil/fakeseeker.go.
pub mod Positions
use go.Common.{
  ℕ, ◌+◌, ◌-◌, ◌^◌, Option, none, some, List, ◌==◌, ltb, leb, if◌then◌else◌, take, drop,
}
use go.Readerutil.Parts.{ReadErr}
use go.Readerutil.Buffering.{Stream}

-- A signed distance, and `whence`.
pub data Distance : Type 0 where
  forward backward : ℕ → Distance

pub data Whence : Type 0 where
  seek_set seek_cur seek_end other : Whence

pub data SeekErr : Type 0 where
  invalid_whence negative_seek : SeekErr

pub record FakeSeeker : Type 0 where
  pub r : Stream
  pub size : ℕ
  pub fake_pos : ℕ
  pub real_pos : ℕ

unfoldable pub new_fake_seeker : Stream → ℕ → FakeSeeker
new_fake_seeker r size = record { r = r; size = size; fake_pos = 0; real_pos = 0 }

-- `base + offset` as an `int64`: a sum of 2 ^ 63 or more has wrapped to a negative one.
unfoldable pub moved : ℕ → Distance → Option ℕ
moved base (forward n) = if ltb (base + n) (2 ^ 63) then some (base + n) else none
moved base (backward n) = if leb n base then some (base - n) else none

abbrev pub base_of : Whence → FakeSeeker → Option ℕ
base_of seek_set fs = some 0
base_of seek_cur fs = some fs.fake_pos
base_of seek_end fs = some fs.size
base_of other fs = none

-- `Seek`: the new offset or an error, and the seeker.
pub data Sought : Type 0 where
  at : ℕ → Sought
  refused : SeekErr → Sought

unfoldable pub seek : Distance → Whence → FakeSeeker → Sought × FakeSeeker
unfolding moved
seek offset whence fs = elim (base_of whence fs) [
  | none ↦ (refused invalid_whence, fs)
  | some base ↦ elim (moved base offset) [
    | none ↦ (refused negative_seek, fs)
    | some newo ↦ (at newo, record fs { fake_pos = newo })
  ]
]

-- `Read`, where the underlying reader gives `n` bytes and `err`; none where it fails by itself.
unfoldable pub read :
    ℕ → Option ReadErr → FakeSeeker → Option (List ℕ × Option ReadErr) × FakeSeeker
read n err fs =
    if fs.fake_pos == fs.real_pos
    then (
      some (take n fs.r.bytes, err),
      record fs {
        r = record fs.r { bytes = drop n fs.r.bytes };
        fake_pos = fs.fake_pos + n;
        real_pos = fs.real_pos + n;
      },
    )
    else (none, fs)
