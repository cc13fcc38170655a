-- ===== src/Syncutil/Once.antt =====
-- `Once` of syncutil/once.go: an action that succeeds once, and is tried again after a failure.
pub mod Safety
use go.Common.{
  ℕ, ◌+◌, ◌≤◌, ◌≡◌, refl, arith, Bool, true, false, Option, none, some, List, ◌||◌, if◌then◌else◌,
  replicate, Bool-cases, inl, inr,
}
use go.Syncutil.Threads.{total, At, moved, total-moved, total-at, total-replicate, some_thread}

-- `locked` is the state of the mutex `m`; `done` is a flag.
pub record Once : Type 0 where
  pub locked : Bool
  pub done : Bool

-- A thread in `Do`: before its load of `done`, before it locks, in `f` under the lock, and with its
-- result, which is nil or the number of an error.
pub data Thread : Type 0 where
  calling locking running : Thread
  returned : Option ℕ → Thread

-- The fast path.
unfoldable pub load : Once → Thread
load o = if o.done then returned none else locking

-- Once locked: a thread that finds it done unlocks and returns at once.
unfoldable pub lock : Once → Thread × Once
lock o = if o.done then (returned none, o) else (running, record o { locked = true })

unfoldable pub succeeds : Option ℕ → Bool
succeeds none = true
succeeds (some _) = false

-- `f` has returned.
unfoldable pub finish : Option ℕ → Once → Once
unfolding succeeds
finish err o = record { locked = false; done = o.done || succeeds err }

-- `successes` counts the calls of `f` that returned nil.
pub record System : Type 0 where
  pub once : Once
  pub threads : List Thread
  pub successes : ℕ

pub data Step (s : System) : System → Type 0 where
  calls_again :
      {e : Option ℕ} (i : At s.threads (returned e))
      → Step s (record s { threads = moved i calling })
  loads : (i : At s.threads calling) → Step s (record s { threads = moved i (load s.once) })
  locks :
      (i : At s.threads locking)
      → s.once.locked ≡ false
      → Step s (record s { once = (lock s.once).1; threads = moved i (lock s.once).0 })
  finishes :
      (err : Option ℕ) (i : At s.threads running)
      → Step s (record {
        once = finish err s.once;
        threads = moved i (returned err);
        successes = s.successes + (if succeeds err then 1 else 0);
      })

pub data Reach (k : ℕ) : System → Type 0 where
  started : Reach k (record {
    once = record { locked = false; done = false };
    threads = replicate k calling;
    successes = 0;
  })
  stepped : {s t : System} → Reach k s → Step s t → Reach k t

unfoldable pub in_f : Thread → ℕ
in_f running = 1
in_f t = 0
