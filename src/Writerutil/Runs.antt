-- ===== src/Writerutil/Runs.antt =====
-- Concrete runs of writerutil/writerutil.go, and its theorems at concrete inputs.
use go.Common.{ℕ, ◌≡◌, refl, arith, List, [], ◌∷◌}
use go.Writerutil.{new, write_all, bytes}
use go.Writerutil.Kept.{bytes-write_all}

abbrev one_number : ℕ → List ℕ
one_number k = k ∷ []

ring_runs :
    bytes one_number
      (0 ∷ [])
      (0 ∷ [])
      (write_all ((1 ∷ 2 ∷ 3 ∷ []) ∷ (4 ∷ 5 ∷ []) ∷ (6 ∷ 7 ∷ []) ∷ []) (new 2))
    ≡ 1 ∷ 2 ∷ 0 ∷ 3 ∷ 0 ∷ 6 ∷ 7 ∷ []
unfolding bytes write_all
ring_runs = refl

bytes-write_all_example :
    bytes one_number
      (0 ∷ [])
      (0 ∷ [])
      (write_all ((1 ∷ 2 ∷ 3 ∷ []) ∷ (4 ∷ 5 ∷ []) ∷ (6 ∷ 7 ∷ []) ∷ []) (new 2))
    ≡ 1 ∷ 2 ∷ 0 ∷ 3 ∷ 0 ∷ 6 ∷ 7 ∷ []
bytes-write_all_example =
    bytes-write_all one_number (0 ∷ []) (0 ∷ []) 2
      ((1 ∷ 2 ∷ 3 ∷ []) ∷ (4 ∷ 5 ∷ []) ∷ (6 ∷ 7 ∷ []) ∷ []) (omega arith)
