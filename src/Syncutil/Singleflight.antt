-- ===== src/Syncutil/Singleflight.antt =====
-- `Group.Do` of syncutil/singleflight/singleflight.go: one execution at a time for each key. The function
-- that is executed returns: a panic of it, after which `Do` marks nothing as done, has no step.
pub mod Results
pub mod Invariant
use go.Common.{
  ℕ, zero, suc, ◌+◌, ◌-◌, ◌≤◌, ◌<◌, ◌≡◌, refl, ap, subst, ◌∙◌, arith, Bool, true, false, Option,
  none, some, List, [], ◌∷◌, ◌++◌, ltb, ◌==◌, ◌||◌, if◌then◌else◌, replicate, Bool-cases,
  Option-cases, inl, inr, ◌⊎◌,
}
use go.Syncutil.Threads.{
  total, At, moved, total-moved, total-at, total-replicate, total_mono, some_thread,
}

-- Keys, calls and results are numbered. `m` is the map; `results` is what the calls that are done hold.
pub record Group : Type 0 where
  pub m : ℕ → Option ℕ
  pub results : ℕ → Option ℕ
  pub next : ℕ

unfoldable pub new_group : Group
new_group = record { m = λ _. none; results = λ _. none; next = 0 }

-- A thread outside `Do`, in `fn` for its key and call, before it deletes the key, in `Wait`, and with the
-- result of a call.
pub data Thread : Type 0 where
  outside : Thread
  executing deleting : ℕ → ℕ → Thread
  waiting : ℕ → Thread
  returned : ℕ → ℕ → Thread

unfoldable pub set : ℕ → Option ℕ → (ℕ → Option ℕ) → ℕ → Option ℕ
set k v f i = if i == k then v else f i

-- The first part of `Do`, under the lock.
unfoldable pub join : ℕ → Group → Thread × Group
unfolding set
join key g = elim (g.m key) [
  | some c ↦ (waiting c, g)
  | none ↦ (executing key g.next, record g { m = set key (some g.next) g.m; next = suc g.next })
]

-- `fn` has returned, and `Done` is called.
unfoldable pub complete : ℕ → ℕ → Group → Group
unfolding set
complete c v g = record g { results = set c (some v) g.results }

-- The last part of `Do`, under the lock.
unfoldable pub delete : ℕ → Group → Group
unfolding set
delete key g = record g { m = set key none g.m }

pub record System : Type 0 where
  pub group : Group
  pub threads : List Thread

pub data Step (s : System) : System → Type 0 where
  joins :
      (key : ℕ) (i : At s.threads outside)
      → Step s (record { group = (join key s.group).1; threads = moved i (join key s.group).0 })
  completes :
      {key c : ℕ} (v : ℕ) (i : At s.threads (executing key c))
      → Step s (record { group = complete c v s.group; threads = moved i (deleting key c) })
  deletes :
      {key c : ℕ} (v : ℕ) (i : At s.threads (deleting key c))
      → s.group.results c ≡ some v
      → Step s (record { group = delete key s.group; threads = moved i (returned c v) })
  wakes :
      {c : ℕ} (v : ℕ) (i : At s.threads (waiting c))
      → s.group.results c ≡ some v
      → Step s (record s { threads = moved i (returned c v) })

pub data Reach (k : ℕ) : System → Type 0 where
  started : Reach k (record { group = new_group; threads = replicate k outside })
  stepped : {s t : System} → Reach k s → Step s t → Reach k t

-- The threads that execute for a key.
unfoldable pub executes : ℕ → Thread → ℕ
executes key (executing k c) = if k == key then 1 else 0
executes key t = 0
