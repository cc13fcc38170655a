-- ===== src/Ziputil/Times.antt =====
-- The times of `readDirectoryHeader` in ziputil/ziputil.go: `msDosTimeToTime`, `timeZone` and `Modified`.
-- An instant is a number of ticks of 100 ns, the unit of NTFS, since 2 ^ 63 ticks before 1601.
use go.Common.{
  get_elem?, ℕ, ◌+◌, ◌-◌, ◌*◌, ◌/◌, ◌%◌, ◌^◌, ◌≤◌, ◌<◌, arith, Bool, not, ◌&&◌, ◌||◌, Option, none,
  some, [], ◌∷◌, ◌==◌, leb, ltb, if◌then◌else◌, inl, inr, Bool-cases,
}
use go.Ziputil.Header.Extras.{Stamp, ntfs_ticks, unix_seconds}

-- The years 1970 and 1, and the instant of a number of seconds since 1970.
abbrev pub unix_epoch : ℕ
unix_epoch = 2 ^ 63 + 116444736000000000

abbrev pub zero_time : ℕ
zero_time = 2 ^ 63 - 504911232000000000

unfoldable pub of_unix : ℕ → ℕ
of_unix s = unix_epoch + s * 10000000

-- The instant of an extra field: the bits of an NTFS time are those of an `int64`.
unfoldable pub instant_of : Stamp → ℕ
unfolding of_unix
instant_of (ntfs_ticks t) = (t + 2 ^ 63) % 2 ^ 64
instant_of (unix_seconds s) = of_unix s

-- `time.Date` in UTC, for years from 1979 on: leap years, the days before a year since 1970, and those
-- before a month, which is counted from 0.
unfoldable pub is_leap : ℕ → Bool
is_leap y = (y % 4 == 0) && (not (y % 100 == 0) || (y % 400 == 0))

unfoldable pub leap_days : ℕ → ℕ
leap_days y = y / 4 - y / 100 + y / 400

unfoldable pub year_days : ℕ → ℕ
unfolding leap_days
year_days y = 365 * (y - 1970) + (leap_days (y - 1) - leap_days 1969)

unfoldable pub month_days : ℕ → ℕ
month_days m =
    elim (get_elem? {A = ℕ} (0 ∷ 31 ∷ 59 ∷ 90 ∷ 120 ∷ 151 ∷ 181 ∷ 212 ∷ 243 ∷ 273 ∷ 304 ∷ 334 ∷ [])
      m) [ none ↦ 0 | some days ↦ days ]

unfoldable pub date_days : ℕ → ℕ → ℕ → ℕ
unfolding year_days is_leap month_days
date_days y m d = year_days y + month_days m + (if ltb 1 m && is_leap y then 1 else 0) + d - 1

-- `msDosTimeToTime`: the month may be 0, which is December of the year before, or more than 12.
unfoldable pub ms_dos_time_to_time : ℕ → ℕ → ℕ
unfolding date_days of_unix
ms_dos_time_to_time dos_date dos_time =
    let months = (dos_date / 512 + 1980) * 12 + dos_date / 32 % 16 - 1 in
    of_unix (
      date_days (months / 12) (months % 12) (dos_date % 32) * 86400
      + dos_time / 2048 * 3600
      + dos_time / 32 % 64 * 60
      + dos_time % 32 * 2)

-- A `time.Location`: UTC, or a zone some seconds east or west of it.
pub data Location : Type 0 where
  utc : Location
  east west : ℕ → Location

-- `timeZone` of the difference from `a` to `b`. `Round` goes to the nearest quarter of an hour, and away
-- from 0 in the middle; 12 hours west and 14 hours east are the limits. `Sub` stops at the largest
-- duration, which is beyond these too.
unfoldable pub quarters : ℕ → ℕ
quarters ticks = (ticks + 4500000000) / 9000000000

unfoldable pub time_zone : ℕ → ℕ → Location
unfolding quarters
time_zone a b =
    if leb a b
    then (let q = quarters (b - a) in if leb q 56 then east (q * 900) else east 0)
    else (let q = quarters (a - b) in if leb q 48 then west (q * 900) else east 0)

pub record Modified : Type 0 where
  pub instant : ℕ
  pub location : Location

-- The end of `readDirectoryHeader`: `Modified`, from the extra fields' time and the fields of MS-DOS.
unfoldable pub modified_of : Option Stamp → ℕ → ℕ → Modified
unfolding instant_of ms_dos_time_to_time time_zone
modified_of stamp dos_date dos_time =
    let dos = ms_dos_time_to_time dos_date dos_time in
    elim stamp [
      | none ↦ record { instant = dos; location = utc }
      | some t ↦
          if instant_of t == zero_time then record { instant = dos; location = utc } else record {
            instant = instant_of t;
            location =
                if (dos_time == 0) && (dos_date == 0) then utc else time_zone (instant_of t) dos;
          }
    ]

-- How far a zone is from a difference in ticks, both east; west of UTC the two are exchanged.
abbrev pub Near : ℕ → ℕ → Type 0
Near seconds ticks =
    (ticks ≤ seconds * 10000000 + 4500000000) × (seconds * 10000000 ≤ ticks + 4500000000)

-- A zone that fits two times: whole quarters of an hour, at most 14 hours east or 12 hours west, and no
-- further from the difference than half a quarter; or none, exactly where that would be past a limit: from
-- half a quarter more than 14 hours east, or more than 12 hours west.
pub data Fair (a b : ℕ) : Location → Type 0 where
  eastern : (q : ℕ) → q ≤ 56 → a ≤ b → Near (q * 900) (b - a) → Fair a b (east (q * 900))
  western : (q : ℕ) → q ≤ 48 → b < a → Near (q * 900) (a - b) → Fair a b (west (q * 900))
  too_far_east : 508500000000 ≤ b - a → Fair a b (east 0)
  too_far_west : 436500000000 ≤ a - b → Fair a b (east 0)

quarters-Near : (ticks : ℕ) → Near (quarters ticks * 900) ticks
unfolding quarters
quarters-Near ticks = (omega arith, omega arith)

-- `timeZone` gives whole quarters of an hour, at most 14 hours east or 12 hours west, that are no further
-- from the difference of the two times than half a quarter; or 0, and then the difference is at least
-- 14 hours and half a quarter of an hour east, or 12 hours and half a quarter west.
pub time_zone-Fair : (a b : ℕ) → Fair a b (time_zone a b)
unfolding time_zone quarters
time_zone-Fair a b = elim (Bool-cases (leb a b)) [
  | inl later ↦ elim (Bool-cases (leb (quarters (b - a)) 56)) [
    | inl fits ↦
        rw (time_zone, later, fits)
          (eastern (quarters (b - a)) (ground (arith, fits)) (ground (arith, later))
            (quarters-Near (b - a)))
    | inr far ↦ rw (time_zone, later, far) (too_far_east (ground (arith, far)))
  ]
  | inr earlier ↦ elim (Bool-cases (leb (quarters (a - b)) 48)) [
    | inl fits ↦
        rw (time_zone, earlier, fits)
          (western (quarters (a - b)) (ground (arith, fits)) (ground (arith, earlier))
            (quarters-Near (a - b)))
    | inr far ↦ rw (time_zone, earlier, far) (too_far_west (ground (arith, far)))
  ]
]
