-- ===== src/Syncutil/Sem.antt =====
-- `Sem` of syncutil/sem.go: a weighted semaphore.
pub mod Safety
use go.Common.{
  ℕ, ◌+◌, ◌-◌, ◌≤◌, ◌<◌, ◌≡◌, refl, arith, Bool, true, false, List, leb, ltb, if◌then◌else◌,
  replicate, map, Bool-cases, inl, inr, ◌∙◌,
}
use go.Syncutil.Threads.{
  total, At, moved, total-moved, total-at, some_thread, total_mono, total-map, total-zero,
  total-replicate,
}

-- Units are natural numbers; the sum of those in use stays below the `int64` maximum.
pub record Sem : Type 0 where
  pub max : ℕ
  pub free : ℕ

unfoldable pub new_sem : ℕ → Sem
new_sem max = record { max = max; free = max }

-- The test before `Acquire` locks: whether it returns an error.
unfoldable pub too_many : ℕ → Sem → Bool
too_many n s = ltb s.max n

-- A round of the loop in `Acquire`, under the lock: whether it returns, and the semaphore.
unfoldable pub try_acquire : ℕ → Sem → Bool × Sem
try_acquire n s = if leb n s.free then (true, record s { free = s.free - n }) else (false, s)

-- `Release`, which also wakes all who wait.
unfoldable pub release : ℕ → Sem → Sem
release n s = record s { free = s.free + n }

-- A thread outside, before a round of `Acquire`, in `Wait`, and between `Acquire` and its `Release`.
pub data Thread : Type 0 where
  idle : Thread
  trying waiting holding : ℕ → Thread

-- `Broadcast`
unfoldable pub woken : Thread → Thread
woken (waiting n) = trying n
woken t = t

pub record System : Type 0 where
  pub sem : Sem
  pub threads : List Thread

unfoldable pub after_try : Bool → ℕ → Thread
after_try got n = if got then holding n else waiting n

-- The lock is free between the rounds only, so each round is one step. A thread releases what it has
-- acquired.
pub data Step (s : System) : System → Type 0 where
  begins :
      (n : ℕ) (i : At s.threads idle)
      → Step s (record s { threads = moved i (if too_many n s.sem then idle else trying n) })
  tries :
      {n : ℕ} (i : At s.threads (trying n))
      → Step s (record {
        sem = (try_acquire n s.sem).1;
        threads = moved i (after_try (try_acquire n s.sem).0 n);
      })
  releases :
      {n : ℕ} (i : At s.threads (holding n))
      → Step s (record { sem = release n s.sem; threads = map woken (moved i idle) })

pub data Reach (max k : ℕ) : System → Type 0 where
  started : Reach max k (record { sem = new_sem max; threads = replicate k idle })
  stepped : {s t : System} → Reach max k s → Step s t → Reach max k t

-- The units that a thread holds.
unfoldable pub held : Thread → ℕ
held (holding n) = n
held t = 0
