-- ===== src/Rollsum/Runs.antt =====
-- Concrete runs of rollsum/rollsum.go, and its theorems at concrete inputs.
use go.Common.{ℕ, ◌+◌, ◌≡◌, refl, arith, true, List, [], ◌∷◌, ◌++◌, replicate}
use go.Rollsum.{RollSum, new, roll, roll_all, digest, on_split, bits, trailing_zeros}
use go.Rollsum.Window.{IsValid, roll-IsValid, new-IsValid, total, weighted, s2_base}
use go.Rollsum.Split.{sums-roll_all, digest-roll_all}

abbrev last : List ℕ
last = replicate 63 7 ++ (255 ∷ [])

abbrev primed : RollSum
primed = record { s1 = 1984; s2 = 0x3fff; window = replicate 64 0; wofs = 0 }

digest-new : digest new ≡ 0x7c0e840
unfolding digest new
digest-new = refl

splits : on_split primed ≡ true
unfolding on_split
splits = refl

bits_runs : bits new ≡ 15
unfolding bits digest trailing_zeros new
bits_runs = refl

roll-IsValid_example : IsValid (roll new 200)
roll-IsValid_example = roll-IsValid 200 new-IsValid (omega arith)

sums-roll_all_example :
    ((roll_all new ((9 ∷ []) ++ last)).s1 ≡ total last)
    × ((roll_all new ((9 ∷ []) ++ last)).s2 ≡ s2_base + weighted last)
sums-roll_all_example = sums-roll_all (9 ∷ []) last (omega arith) (omega arith) refl

digest-roll_all_example :
    digest (roll_all new ((9 ∷ []) ++ last)) ≡ digest (roll_all new ((1 ∷ 2 ∷ []) ++ last))
digest-roll_all_example =
    digest-roll_all (9 ∷ []) (1 ∷ 2 ∷ []) last (omega arith) (omega arith) (omega arith) refl
