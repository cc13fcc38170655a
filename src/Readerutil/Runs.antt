-- ===== src/Readerutil/Runs.antt =====
-- Concrete runs of readerutil, and its theorems at concrete inputs.
use go.Common.{
  ℕ, zero, suc, ◌<◌, ◌≡◌, refl, arith, List, [], ◌∷◌, Bool, false, none, some, length, replicate,
  if◌then◌else◌, ◌==◌, take, drop, Bool-cases, inl, inr, ◌↔◌,
}
use go.Readerutil.Parts.{
  SizeReaderAt, bytes_reader, zero_size_reader_at, multi_read_at, new_multi_reader_at, eof, finish,
}
use go.Readerutil.Parts.Loop.{bytes_reader-IsPart, Holds-IsPart, zero_size_reader_at-Holds, concat}
use go.Readerutil.Parts.Whole.{IsSearch, Sources, multi_read_at_lem}
use go.Readerutil.Buffering.{
  Stream, BufReaderAt, new_buffering_reader_at, read_at, Buffers, read_at_lem,
}
use go.Readerutil.FakeSeeker.{
  forward, backward, seek_cur, seek_end, at, FakeSeeker, new_fake_seeker, seek, read,
}
use go.Readerutil.FakeSeeker.Positions.{has_read, sought, Reach, opened, IsBase, IsSum, read-true}

-- A `sort.Search` that looks at one index after the other.
unfoldable pub linear : ℕ → (ℕ → Bool) → ℕ
linear zero f = 0
linear (suc n) f = let later = linear n (λ i. f (suc i)) in if f 0 then 0 else suc later

pub linear-IsSearch : IsSearch linear
unfolding linear
linear-IsSearch zero f st = record {
  bound = omega arith;
  before = λ j l. absurd (omega arith);
  found = λ l. absurd (omega arith);
}
linear-IsSearch (suc n) f st = elim (Bool-cases (f 0)) [
  | inl here ↦
      rw here
        (record { bound = omega arith; before = λ j l. absurd (omega arith); found = λ l. here })
  | inr not_here ↦
      let later =
        linear-IsSearch n (λ i. f (suc i))
          (λ i j q l t. st (suc i) (suc j) (omega arith) (omega arith) t) in
      rw not_here (record {
        bound = omega (arith, later.bound);
        before = λ j. elim j as (λ i. i < suc (linear n (λ i. f (suc i))) → f i ≡ false) [
          | zero ↦ λ l. not_here
          | suc j ↦ λ l. later.before j (omega arith)
        ];
        found = λ l. later.found (omega arith);
      })
]

abbrev two_parts : List SizeReaderAt
two_parts = bytes_reader (7 ∷ 8 ∷ []) ∷ zero_size_reader_at 2 ∷ bytes_reader (9 ∷ []) ∷ []

abbrev two_contents : List (List ℕ)
two_contents = (7 ∷ 8 ∷ []) ∷ replicate 2 0 ∷ (9 ∷ []) ∷ []

two_parts-Sources : Sources two_contents two_parts
unfolding Sources
two_parts-Sources = (
  bytes_reader-IsPart 7 (8 ∷ []),
  (Holds-IsPart _ _ (zero_size_reader_at-Holds 2), (bytes_reader-IsPart 9 [], tt)),
)

multi_read_at_run :
    multi_read_at linear (new_multi_reader_at two_parts) 3 1 ≡ (8 ∷ 0 ∷ 0 ∷ [], none)
unfolding multi_read_at new_multi_reader_at linear bytes_reader zero_size_reader_at
multi_read_at_run = refl

multi_read_at_example :
    multi_read_at linear (new_multi_reader_at two_parts) 3 1
    ≡ finish 3 (take 3 (drop 1 (concat two_contents)))
multi_read_at_example =
    multi_read_at_lem linear linear-IsSearch two_contents two_parts 3 1 two_parts-Sources
      (ground arith)

abbrev five : Stream
five = record { bytes = 1 ∷ 2 ∷ 3 ∷ 4 ∷ 5 ∷ []; fault = eof }

abbrev after_first : BufReaderAt
after_first = record { r = record { bytes = 3 ∷ 4 ∷ 5 ∷ []; fault = eof }; buf = 1 ∷ 2 ∷ [] }

after_first-Buffers : Buffers five.bytes after_first
after_first-Buffers = record { split = refl }

read_at_run : (read_at (new_buffering_reader_at five) 2 0).2 ≡ after_first
unfolding read_at new_buffering_reader_at
read_at_run = refl

read_at_example :
    ((read_at after_first 3 1).0 ≡ take 3 (drop 1 five.bytes))
    × (((read_at after_first 3 1).1 ≡ none) ↔ (length (take 3 (drop 1 five.bytes)) ≡ 3))
    × Buffers five.bytes (read_at after_first 3 1).2
read_at_example =
    read_at_lem five.bytes after_first 3 1 after_first-Buffers (omega arith) (omega arith)

abbrev moved_on : FakeSeeker
moved_on = (read 2 none (new_fake_seeker five 5)).1

moved_on-Reach : Reach five 5 2 2 moved_on
unfolding new_fake_seeker read
moved_on-Reach = has_read 2 none opened (ground arith) refl

-- At the end, with two bytes read.
read-true_example :
    ((read 1 none (seek (forward 0) seek_end moved_on).1).0
      ≡ (if 5 == 2 then some (take 1 (drop 5 five.bytes), none) else none))
    × (((seek (backward 3) seek_cur (seek (forward 0) seek_end moved_on).1).0 ≡ at 2)
        ↔ ((base : ℕ) × IsBase 5 5 seek_cur base × IsSum (backward 3) base 2))
unfolding seek new_fake_seeker read
read-true_example =
    read-true 1 none (backward 3) seek_cur 2 (sought (forward 0) seek_end moved_on-Reach refl)

sought-away : (read 1 none (seek (backward 1) seek_end moved_on).1).0 ≡ none
unfolding read seek new_fake_seeker
sought-away = refl
