-- ===== src/Syncutil/Singleflight/Results.antt =====
-- What the callers of `Do` in syncutil/singleflight/singleflight.go may rely on.
use go.Common.{
  ℕ, ◌≤◌, ◌<◌, ◌≡◌, ap, subst, ◌∙◌, arith, Option, none, some, Option-cases, inl, inr, ◌⊎◌,
}
use go.Syncutil.Threads.{total, At, total-at, total_mono, some_thread}
use go.Syncutil.Singleflight.{
  Thread, System, Reach, executes, outside, executing, deleting, waiting, returned,
}
use go.Syncutil.Singleflight.Invariant.{owns, runs, is_some, differs, wrong, unmade, Reach-Inv}

executes-owns : (key : ℕ) (t : Thread) → executes key t ≤ owns key t
unfolding executes owns
executes-owns key outside = omega arith
executes-owns key (executing k c) = omega arith
executes-owns key (deleting k c) = omega arith
executes-owns key (waiting c) = omega arith
executes-owns key (returned c v) = omega arith

is_some-small : (o : Option ℕ) → is_some o ≤ 1
unfolding is_some
is_some-small none = omega arith
is_some-small (some a) = omega arith

-- In every reachable state at most one thread executes `fn` for a key.
pub one_in_flight : {k : ℕ} {s : System} (key : ℕ) → Reach k s → total (executes key) s.threads ≤ 1
one_in_flight {k} {s} key r = omega (
  arith,
  (Reach-Inv r).owned key,
  is_some-small (s.group.m key),
  total_mono (executes key) (owns key) (executes-owns key) s.threads,
)

-- All threads that return from one call have the same result, that of its execution.
pub same_result :
    {k c v w : ℕ} {s : System}
    → Reach k s
    → At s.threads (returned c v)
    → At s.threads (returned c w)
    → (s.group.results c ≡ some v) × (v ≡ w)
unfolding wrong differs
same_result {k} {c} {v} {w} {s} r i j = elim (Option-cases (s.group.results c)) [
  | inl absent ↦
      absurd (ground (arith, absent, (Reach-Inv r).right, total-at (wrong s.group.results) i))
  | inr (x, there) ↦
      let a : x ≡ v =
        ground (arith, there, (Reach-Inv r).right, total-at (wrong s.group.results) i) in
      let b : x ≡ w =
        ground (arith, there, (Reach-Inv r).right, total-at (wrong s.group.results) j) in
      (there ∙ ap (λ t. some t) a, omega (arith, a, b))
]

-- As long as every executed function returns, a panic of one having no step: no caller waits for nothing.
-- Where a thread waits for a call, the call has its result, or a thread still executes it.
pub wait_ends :
    {k c : ℕ} {s : System}
    → Reach k s
    → At s.threads (waiting c)
    → ((v : ℕ) × (s.group.results c ≡ some v)) ⊎ ((key : ℕ) × At s.threads (executing key c))
unfolding unmade is_some runs
wait_ends {k} {c} {s} r i = elim (Option-cases (s.group.results c)) [
  | inr there ↦ inl there
  | inl absent ↦
      let v = Reach-Inv r in
      let made : c < s.group.next = ground (arith, v.made, total-at (unmade s.group.next) i) in
      let (t, j, one) =
        some_thread (runs c) s.threads (ground (arith, absent, v.run_once c, made)) in
      inr (executing_it t j one)
]
  where
    executing_it :
        (t : Thread) → At s.threads t → 1 ≤ runs c t → (key : ℕ) × At s.threads (executing key c)
    executing_it (executing key c1) j one =
        (key, subst (λ x. At s.threads (executing key x)) {y = c} (ground (arith, one)) j)
    executing_it outside j one = absurd (omega arith)
    executing_it (deleting key c1) j one = absurd (omega arith)
    executing_it (waiting c1) j one = absurd (omega arith)
    executing_it (returned c1 v1) j one = absurd (omega arith)
