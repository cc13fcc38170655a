-- ===== src/Readerutil/Size.antt =====
-- `Size` of readerutil/readersize.go over any seeker, and over the one of readerutil/fakeseeker.go.
use go.Common.{ℕ, ◌-◌, ◌^◌, ◌<◌, ◌≡◌, arith, ◌==◌, leb, if◌then◌else◌}
use go.Readerutil.FakeSeeker.{
  Distance, forward, backward, Whence, seek_set, seek_cur, seek_end, Sought, at, refused,
  FakeSeeker, seek, moved,
}

-- The size is a difference of two offsets. `Size` panics where it cannot restore the position.
pub data SizeAnswer : Type 0 where
  unknown panics : SizeAnswer
  known : Distance → SizeAnswer

unfoldable pub minus : ℕ → ℕ → Distance
minus a b = if leb b a then forward (a - b) else backward (b - a)

-- The third `Seek`, and its check.
unfoldable pub restored : Distance → ℕ → Sought → SizeAnswer
restored size pos (at pos1) = if pos1 == pos then known size else panics
restored size pos (refused _) = panics

-- `Size` of an `io.Seeker`.
unfoldable pub size_of : {S : Type 0} → (Distance → Whence → S → Sought × S) → S → SizeAnswer × S
unfolding minus restored
size_of seek_in s =
    let (got, s1) = seek_in (forward 0) seek_cur s in
    elim got [
      | refused _ ↦ (unknown, s1)
      | at pos ↦
          let (got2, s2) = seek_in (forward 0) seek_end s1 in
          elim got2 [
            | refused _ ↦ (unknown, s2)
            | at end_pos ↦
                let (got3, s3) = seek_in (forward pos) seek_set s2 in
                (restored (minus end_pos pos) pos got3, s3)
          ]
    ]

-- Of a fake seeker whose size and position are `int64`s that are not negative, `Size` answers the
-- distance from the position to the end, and leaves the seeker as it was.
pub size_of-seek :
    (fs : FakeSeeker)
    → fs.size < 2 ^ 63
    → fs.fake_pos < 2 ^ 63
    → size_of seek fs ≡ (known (minus fs.size fs.fake_pos), fs)
unfolding size_of seek moved restored
size_of-seek fs a b = ground (arith, a, b)
