-- ===== src/Syncutil/Sem/Safety.antt =====
-- All units of a `Sem` of syncutil/sem.go are accounted for, and no wake-up is lost.
use go.Common.{
  ℕ, ◌+◌, ◌-◌, ◌≤◌, ◌<◌, ◌≡◌, refl, arith, leb, ltb, if◌then◌else◌, replicate, map, Bool-cases, inl,
  inr, ◌∙◌,
}
use go.Syncutil.Threads.{
  total, At, moved, total-moved, total-at, some_thread, total_mono, total-map, total-zero,
  total-replicate,
}
use go.Syncutil.Sem.{
  new_sem, too_many, try_acquire, release, Thread, woken, System, after_try, Reach, held, idle,
  trying, waiting, holding, begins, tries, releases, started, stepped,
}

-- A thread that has waited although it could go on, and one that asks for more than there is.
stuck : ℕ → Thread → ℕ
stuck free (waiting n) = if leb n free then 1 else 0
stuck free t = 0

excessive : ℕ → Thread → ℕ
excessive max (waiting n) = if leb n max then 0 else 1
excessive max (trying n) = if leb n max then 0 else 1
excessive max t = 0

record Inv (max : ℕ) (s : System) : Type 0 where
  same_max : s.sem.max ≡ max
  accounted : s.sem.free + total held s.threads ≡ max
  awake : total (stuck s.sem.free) s.threads ≡ 0
  sensible : total (excessive max) s.threads ≡ 0

held-woken : (t : Thread) → held (woken t) ≡ held t
unfolding held woken
held-woken idle = refl
held-woken (trying n) = refl
held-woken (waiting n) = refl
held-woken (holding n) = refl

excessive-woken : (max : ℕ) (t : Thread) → excessive max (woken t) ≡ excessive max t
unfolding excessive woken
excessive-woken max idle = refl
excessive-woken max (trying n) = refl
excessive-woken max (waiting n) = refl
excessive-woken max (holding n) = refl

stuck-woken : (free : ℕ) (t : Thread) → stuck free (woken t) ≡ 0
unfolding stuck woken
stuck-woken free idle = refl
stuck-woken free (trying n) = refl
stuck-woken free (waiting n) = refl
stuck-woken free (holding n) = refl

stuck_mono : (a b : ℕ) → a ≤ b → (t : Thread) → stuck a t ≤ stuck b t
unfolding stuck
stuck_mono a b h idle = omega arith
stuck_mono a b h (trying n) = omega arith
stuck_mono a b h (waiting n) = ground (arith, h)
stuck_mono a b h (holding n) = omega arith

started-Inv : (max k : ℕ) → Inv max (record { sem = new_sem max; threads = replicate k idle })
unfolding new_sem held stuck excessive
started-Inv max k = record {
  same_max = refl;
  accounted = omega (arith, total-replicate held idle k refl);
  awake = total-replicate (stuck max) idle k refl;
  sensible = total-replicate (excessive max) idle k refl;
}

begins-Inv :
    (max n : ℕ) (s : System) (i : At s.threads idle)
    → Inv max s
    → Inv max (record s { threads = moved i (if too_many n s.sem then idle else trying n) })
unfolding too_many held stuck excessive
begins-Inv max n s i v =
    let q = if ltb s.sem.max n then idle else trying n in
    record {
      same_max = v.same_max;
      accounted = ground (arith, v.accounted, total-moved held i q);
      awake = ground (arith, v.awake, total-moved (stuck s.sem.free) i q);
      sensible = ground (arith, v.sensible, v.same_max, total-moved (excessive max) i q);
    }

tries-Inv :
    (max : ℕ) {n : ℕ} (s : System) (i : At s.threads (trying n))
    → Inv max s
    → Inv max (record {
      sem = (try_acquire n s.sem).1;
      threads = moved i (after_try (try_acquire n s.sem).0 n);
    })
unfolding try_acquire after_try held stuck excessive
tries-Inv max {n} s i v = elim (Bool-cases (leb n s.sem.free)) [
  | inl fits ↦
      let less =
        total_mono (stuck (s.sem.free - n)) (stuck s.sem.free)
          (stuck_mono (s.sem.free - n) s.sem.free (omega arith)) s.threads in
      rw fits (record {
        same_max = v.same_max;
        accounted = ground (arith, fits, v.accounted, total-moved held i (holding n));
        awake = omega (arith, v.awake, less, total-moved (stuck (s.sem.free - n)) i (holding n));
        sensible = ground (arith, v.sensible, total-moved (excessive max) i (holding n));
      })
  | inr misses ↦ rw misses (record {
    same_max = v.same_max;
    accounted = omega (arith, v.accounted, total-moved held i (waiting n));
    awake = ground (arith, misses, v.awake, total-moved (stuck s.sem.free) i (waiting n));
    sensible = omega (arith, v.sensible, total-moved (excessive max) i (waiting n));
  })
]

releases-Inv :
    (max : ℕ) {n : ℕ} (s : System) (i : At s.threads (holding n))
    → Inv max s
    → Inv max (record { sem = release n s.sem; threads = map woken (moved i idle) })
unfolding release held excessive
releases-Inv max {n} s i v = record {
  same_max = v.same_max;
  accounted = omega (
    arith,
    v.accounted,
    total-moved held i idle,
    total-map held held woken held-woken (moved i idle),
  );
  awake =
      total-map (stuck (s.sem.free + n)) (λ _. 0) woken (stuck-woken (s.sem.free + n))
        (moved i idle)
      ∙ total-zero (λ _. 0) (λ _. refl) (moved i idle);
  sensible = omega (
    arith,
    v.sensible,
    total-moved (excessive max) i idle,
    total-map (excessive max) (excessive max) woken (excessive-woken max) (moved i idle),
  );
}

Reach-Inv : {max k : ℕ} {s : System} → Reach max k s → Inv max s
Reach-Inv {max} {k} started = started-Inv max k
Reach-Inv {max} (stepped {s} r (begins n i)) = begins-Inv max n s i (Reach-Inv r)
Reach-Inv {max} (stepped {s} r (tries i)) = tries-Inv max s i (Reach-Inv r)
Reach-Inv {max} (stepped {s} r (releases i)) = releases-Inv max s i (Reach-Inv r)

-- In every reachable state the units that are free and those that the threads hold are all units there
-- are, so no more are ever held at once.
pub units_accounted :
    {max k : ℕ} {s : System}
    → Reach max k s
    → (s.sem.free + total held s.threads ≡ max) × (total held s.threads ≤ max)
units_accounted r = let v = Reach-Inv r in (v.accounted, omega (arith, v.accounted))

-- No wake-up is lost: in every reachable state a thread that waits for `n` units finds less than `n`
-- free, and some thread holds units, whose `Release` will wake it.
pub no_lost_wakeup :
    {max k n : ℕ} {s : System}
    → Reach max k s
    → At s.threads (waiting n)
    → (s.sem.free < n) × ((t : Thread) × At s.threads t × (1 ≤ held t))
unfolding stuck excessive
no_lost_wakeup {max} {k} {n} {s} r i =
    let v = Reach-Inv r in
    let a = total-at (stuck s.sem.free) i in
    let b = total-at (excessive max) i in
    let short : s.sem.free < n = ground (arith, v.awake, a) in
    let most : n ≤ max = ground (arith, v.sensible, b) in
    (short, some_thread held s.threads (omega (arith, v.accounted, short, most)))
