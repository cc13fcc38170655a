-- ===== src/Syncutil/Once/Safety.antt =====
-- What the threads in `Do` of syncutil/once.go may rely on: one success, and a lock that is never left.
use go.Common.{
  ℕ, ◌+◌, ◌≤◌, ◌≡◌, refl, arith, true, false, Option, none, some, if◌then◌else◌, Bool-cases, inl,
  inr,
}
use go.Syncutil.Threads.{total, At, moved, total-moved, total-at, total-replicate, some_thread}
use go.Syncutil.Once.{
  Thread, load, lock, succeeds, finish, System, Reach, in_f, calling, locking, running, returned,
  calls_again, loads, locks, finishes, started, stepped,
}

returned_nil : Thread → ℕ
returned_nil (returned none) = 1
returned_nil t = 0

record Inv (s : System) : Type 0 where
  one_holder : total in_f s.threads ≡ (if s.once.locked then 1 else 0)
  not_after : s.once.done ≡ true → s.once.locked ≡ false
  counted : s.successes ≡ (if s.once.done then 1 else 0)
  honest : s.once.done ≡ false → total returned_nil s.threads ≡ 0

calls_again-Inv :
    {e : Option ℕ} (s : System) (i : At s.threads (returned e))
    → Inv s
    → Inv (record s { threads = moved i calling })
unfolding in_f returned_nil
calls_again-Inv s i v = record {
  one_holder = ground (arith, v.one_holder, total-moved in_f i calling);
  not_after = v.not_after;
  counted = v.counted;
  honest = λ d. omega (arith, v.honest d, total-moved returned_nil i calling);
}

loads-Inv :
    (s : System) (i : At s.threads calling)
    → Inv s
    → Inv (record s { threads = moved i (load s.once) })
unfolding in_f returned_nil load
loads-Inv s i v = elim (Bool-cases s.once.done) [
  | inl there ↦ record {
    one_holder = ground (arith, there, v.one_holder, total-moved in_f i (returned none));
    not_after = v.not_after;
    counted = v.counted;
    honest = λ d. absurd (ground (arith, d, there));
  }
  | inr missing ↦ record {
    one_holder = ground (arith, missing, v.one_holder, total-moved in_f i locking);
    not_after = v.not_after;
    counted = v.counted;
    honest = λ d. ground (arith, missing, v.honest d, total-moved returned_nil i locking);
  }
]

locks-Inv :
    (s : System) (i : At s.threads locking)
    → s.once.locked ≡ false
    → Inv s
    → Inv (record s { once = (lock s.once).1; threads = moved i (lock s.once).0 })
unfolding in_f returned_nil lock
locks-Inv s i free v = elim (Bool-cases s.once.done) [
  | inl there ↦ record {
    one_holder = ground (arith, there, v.one_holder, total-moved in_f i (returned none));
    not_after = ground (arith, there, free);
    counted = ground (arith, there, v.counted);
    honest = ground (arith, there);
  }
  | inr missing ↦ record {
    one_holder = ground (arith, missing, free, v.one_holder, total-moved in_f i running);
    not_after = ground (arith, missing);
    counted = ground (arith, missing, v.counted);
    honest = ground (arith, missing, v.honest missing, total-moved returned_nil i running);
  }
]

running-locked :
    (s : System)
    → At s.threads running
    → Inv s
    → (s.once.locked ≡ true) × (s.once.done ≡ false) × (total in_f s.threads ≡ 1)
unfolding in_f
running-locked s i v =
    let one = total-at in_f i in
    let held : s.once.locked ≡ true = ground (arith, one, v.one_holder) in
    (held, not_done held, ground (arith, held, v.one_holder))
  where
    not_done : s.once.locked ≡ true → s.once.done ≡ false
    not_done held = elim (Bool-cases s.once.done) [
      | inl there ↦ absurd (ground (arith, v.not_after there, held))
      | inr missing ↦ missing
    ]

finishes-Inv :
    (err : Option ℕ) (s : System) (i : At s.threads running)
    → Inv s
    → Inv (record {
      once = finish err s.once;
      threads = moved i (returned err);
      successes = s.successes + (if succeeds err then 1 else 0);
    })
unfolding in_f returned_nil finish
finishes-Inv none s i v =
    let (held, missing, one) = running-locked s i v in
    record {
      one_holder = omega (arith, one, total-moved in_f i (returned none));
      not_after = λ _. refl;
      counted = ground (arith, missing, v.counted);
      honest = ground (arith, missing);
    }
finishes-Inv (some e) s i v =
    let (held, missing, one) = running-locked s i v in
    record {
      one_holder = omega (arith, one, total-moved in_f i (returned (some e)));
      not_after = λ _. refl;
      counted = ground (arith, missing, v.counted);
      honest = λ _. omega (arith, v.honest missing, total-moved returned_nil i (returned (some e)));
    }

Reach-Inv : {k : ℕ} {s : System} → Reach k s → Inv s
unfolding in_f returned_nil
Reach-Inv {k} started = record {
  one_holder = total-replicate in_f calling k refl;
  not_after = λ _. refl;
  counted = refl;
  honest = λ _. total-replicate returned_nil calling k refl;
}
Reach-Inv (stepped {s} r (calls_again i)) = calls_again-Inv s i (Reach-Inv r)
Reach-Inv (stepped {s} r (loads i)) = loads-Inv s i (Reach-Inv r)
Reach-Inv (stepped {s} r (locks i free)) = locks-Inv s i free (Reach-Inv r)
Reach-Inv (stepped {s} r (finishes err i)) = finishes-Inv err s i (Reach-Inv r)

-- In every reachable state at most one thread is in `f`, `f` has succeeded at most once, and no thread is
-- in `f` once it has: the threads in `f` and the successes come to one at most.
pub succeeds_once : {k : ℕ} {s : System} → Reach k s → total in_f s.threads + s.successes ≤ 1
succeeds_once {k} {s} r =
    let v = Reach-Inv r in
    elim (Bool-cases s.once.done) [
      | inl there ↦ ground (arith, v.not_after there, v.one_holder, there, v.counted)
      | inr missing ↦ ground (arith, v.one_holder, missing, v.counted)
    ]

-- A nil result is true: where a thread has returned nil, `f` has succeeded, and just once.
pub nil_means_success :
    {k : ℕ} {s : System} → Reach k s → At s.threads (returned none) → s.successes ≡ 1
unfolding returned_nil
nil_means_success {k} {s} r i =
    let v = Reach-Inv r in
    elim (Bool-cases s.once.done) [
      | inl there ↦ ground (arith, there, v.counted)
      | inr missing ↦ absurd (omega (arith, v.honest missing, total-at returned_nil i))
    ]

-- The lock never stays taken for nothing: where a thread cannot lock, some thread is in `f`.
pub locked_means_running :
    {k : ℕ} {s : System} → Reach k s → s.once.locked ≡ true → At s.threads running
unfolding in_f
locked_means_running {k} {s} r held =
    let v = Reach-Inv r in
    let (t, i, one) = some_thread in_f s.threads (ground (arith, held, v.one_holder)) in
    is_running t i one
  where
    is_running : (t : Thread) → At s.threads t → 1 ≤ in_f t → At s.threads running
    is_running running i one = i
    is_running calling i one = absurd (omega arith)
    is_running locking i one = absurd (omega arith)
    is_running (returned e) i one = absurd (omega arith)
