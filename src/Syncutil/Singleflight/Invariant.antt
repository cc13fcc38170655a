-- ===== src/Syncutil/Singleflight/Invariant.antt =====
-- The invariant of the callers of `Do` in syncutil/singleflight/singleflight.go, kept by every step.
use go.Common.{
  ℕ, suc, ◌+◌, ◌≤◌, ◌<◌, ◌≡◌, refl, ap, ◌∙◌, arith, Option, none, some, ltb, ◌==◌, if◌then◌else◌,
  replicate, Bool-cases, Option-cases, inl, inr, ◌⊎◌,
}
use go.Syncutil.Threads.{total, At, moved, total-moved, total-at, total-replicate, total_mono}
use go.Syncutil.Singleflight.{
  Group, new_group, Thread, set, join, complete, delete, System, Reach, outside, executing,
  deleting, waiting, returned, joins, completes, deletes, wakes, started, stepped,
}

-- Those that have a key in the map; those that execute a call; those whose result is not the call's; and
-- those that wait for no call.
unfoldable pub owns : ℕ → Thread → ℕ
owns key (executing k c) = if k == key then 1 else 0
owns key (deleting k c) = if k == key then 1 else 0
owns key t = 0

unfoldable pub runs : ℕ → Thread → ℕ
runs c (executing k c1) = if c1 == c then 1 else 0
runs c t = 0

unfoldable pub is_some : Option ℕ → ℕ
is_some none = 0
is_some (some _) = 1

unfoldable pub differs : Option ℕ → ℕ → ℕ
differs none v = 1
differs (some w) v = if w == v then 0 else 1

unfoldable pub wrong : (ℕ → Option ℕ) → Thread → ℕ
wrong results (returned c v) = differs (results c) v
wrong results t = 0

unfoldable pub unmade : ℕ → Thread → ℕ
unmade next (waiting c) = if ltb c next then 0 else 1
unmade next t = 0

pub record Inv (s : System) : Type 0 where
  pub owned : (key : ℕ) → total (owns key) s.threads ≡ is_some (s.group.m key)
  pub run_once :
      (c : ℕ)
      → total (runs c) s.threads + is_some (s.group.results c)
        ≡ (if ltb c s.group.next then 1 else 0)
  pub right : total (wrong s.group.results) s.threads ≡ 0
  pub made : total (unmade s.group.next) s.threads ≡ 0
  pub in_map : (key c : ℕ) → s.group.m key ≡ some c → c < s.group.next

started-Inv : (k : ℕ) → Inv (record { group = new_group; threads = replicate k outside })
unfolding owns runs wrong unmade new_group is_some
started-Inv k = record {
  owned = λ key. total-replicate (owns key) outside k refl;
  run_once = λ c. ground (arith, total-replicate (runs c) outside k refl);
  right = total-replicate (wrong (λ _. none)) outside k refl;
  made = total-replicate (unmade 0) outside k refl;
  in_map = λ key c e. absurd (ground (arith, e));
}

unmade_mono : (n : ℕ) (t : Thread) → unmade (suc n) t ≤ unmade n t
unfolding unmade
unmade_mono n outside = omega arith
unmade_mono n (executing k c) = omega arith
unmade_mono n (deleting k c) = omega arith
unmade_mono n (waiting c) = ground arith
unmade_mono n (returned c v) = omega arith

-- A result that comes where there was none makes no result wrong.
wrong_mono :
    (c v : ℕ) (results : ℕ → Option ℕ)
    → results c ≡ none
    → (t : Thread) → wrong (set c (some v) results) t ≤ wrong results t
unfolding wrong set differs
wrong_mono c v results e outside = omega arith
wrong_mono c v results e (executing k c1) = omega arith
wrong_mono c v results e (deleting k c1) = omega arith
wrong_mono c v results e (waiting c1) = omega arith
wrong_mono c v results e (returned c1 v1) = elim (Bool-cases (c1 == c)) [
  | inl same ↦
      let here : c1 ≡ c = ground (arith, same) in
      let absent : results c1 ≡ none = ap results here ∙ e in rw (same, absent) (ground arith)
  | inr other ↦ rw other (omega arith)
]

join-found : (key c : ℕ) (g : Group) → g.m key ≡ some c → join key g ≡ (waiting c, g)
unfolding join
join-found key c g e = rw (join, e) refl

join-new :
    (key : ℕ) (g : Group)
    → g.m key ≡ none
    → join key g
      ≡ (executing key g.next, record g { m = set key (some g.next) g.m; next = suc g.next })
unfolding join
join-new key g e = rw (join, e) refl

set-some : (k v i w : ℕ) (f : ℕ → Option ℕ) → set k (some v) f i ≡ some w → (w ≡ v) ⊎ (f i ≡ some w)
unfolding set
set-some k v i w f e = elim (Bool-cases (i == k)) [
  | inl same ↦ inl (ground (arith, same, e))
  | inr other ↦ inr (ground (arith, other, e))
]

joins-Inv :
    (key : ℕ) (s : System) (i : At s.threads outside)
    → Inv s
    → Inv (record { group = (join key s.group).1; threads = moved i (join key s.group).0 })
unfolding set owns runs wrong unmade is_some
joins-Inv key s i v = elim (Option-cases (s.group.m key)) [
  | inr (c, there) ↦ rw (join-found key c s.group there) (record {
    owned = λ k. omega (arith, v.owned k, total-moved (owns k) i (waiting c));
    run_once = λ c1. omega (arith, v.run_once c1, total-moved (runs c1) i (waiting c));
    right = omega (arith, v.right, total-moved (wrong s.group.results) i (waiting c));
    made =
        ground
          (arith, v.made, v.in_map key c there, total-moved (unmade s.group.next) i (waiting c));
    in_map = v.in_map;
  })
  | inl missing ↦
      let c = s.group.next in
      let less = total_mono (unmade (suc c)) (unmade c) (unmade_mono c) s.threads in
      rw (join-new key s.group missing) (record {
        owned = λ k.
            ground
              (arith, missing, v.owned k, v.owned key, total-moved (owns k) i (executing key c));
        run_once = λ c1. ground (arith, v.run_once c1, total-moved (runs c1) i (executing key c));
        right = omega (arith, v.right, total-moved (wrong s.group.results) i (executing key c));
        made = omega (arith, v.made, less, total-moved (unmade (suc c)) i (executing key c));
        in_map = λ k c1 e. elim (set-some key c k c1 s.group.m e) [
          | inl same ↦ omega (arith, same)
          | inr old ↦ omega (arith, v.in_map k c1 old)
        ];
      })
]

executing-unresolved :
    (s : System) {key c : ℕ} → At s.threads (executing key c) → Inv s → s.group.results c ≡ none
unfolding runs is_some
executing-unresolved s {key} {c} i v = elim (Option-cases (s.group.results c)) [
  | inl absent ↦ absent
  | inr (w, there) ↦ absurd (ground (arith, there, v.run_once c, total-at (runs c) i))
]

completes-Inv :
    {key c : ℕ} (v : ℕ) (s : System) (i : At s.threads (executing key c))
    → Inv s
    → Inv (record { group = complete c v s.group; threads = moved i (deleting key c) })
unfolding complete owns runs wrong unmade is_some set
completes-Inv {key} {c} w s i v =
    let absent = executing-unresolved s i v in
    let less =
      total_mono (wrong (set c (some w) s.group.results)) (wrong s.group.results)
        (wrong_mono c w s.group.results absent) s.threads in
    record {
      owned = λ k. omega (arith, v.owned k, total-moved (owns k) i (deleting key c));
      run_once = λ c1. elim (Bool-cases (c1 == c)) [
        | inl same ↦
            let here : c1 ≡ c = ground (arith, same) in
            let absent1 : s.group.results c1 ≡ none = ap s.group.results here ∙ absent in
            ground (arith, same, absent1, v.run_once c1, total-moved (runs c1) i (deleting key c))
        | inr other ↦ ground (arith, other, v.run_once c1, total-moved (runs c1) i (deleting key c))
      ];
      right = omega (
        arith,
        v.right,
        less,
        total-moved (wrong (set c (some w) s.group.results)) i (deleting key c),
      );
      made = omega (arith, v.made, total-moved (unmade s.group.next) i (deleting key c));
      in_map = v.in_map;
    }

deletes-Inv :
    {key c : ℕ} (v : ℕ) (s : System) (i : At s.threads (deleting key c))
    → s.group.results c ≡ some v
    → Inv s
    → Inv (record { group = delete key s.group; threads = moved i (returned c v) })
unfolding delete owns runs wrong unmade is_some set differs
deletes-Inv {key} {c} w s i e v = record {
  owned = λ k.
      ground (
        arith,
        v.owned k,
        v.owned key,
        total-at (owns key) i,
        total-moved (owns k) i (returned c w),
      );
  run_once = λ c1. omega (arith, v.run_once c1, total-moved (runs c1) i (returned c w));
  right = ground (arith, e, v.right, total-moved (wrong s.group.results) i (returned c w));
  made = omega (arith, v.made, total-moved (unmade s.group.next) i (returned c w));
  in_map = λ k c1 m. ground (arith, m, v.in_map k c1);
}

wakes-Inv :
    {c : ℕ} (v : ℕ) (s : System) (i : At s.threads (waiting c))
    → s.group.results c ≡ some v
    → Inv s
    → Inv (record s { threads = moved i (returned c v) })
unfolding owns runs wrong unmade is_some differs
wakes-Inv {c} w s i e v = record {
  owned = λ k. omega (arith, v.owned k, total-moved (owns k) i (returned c w));
  run_once = λ c1. omega (arith, v.run_once c1, total-moved (runs c1) i (returned c w));
  right = ground (arith, e, v.right, total-moved (wrong s.group.results) i (returned c w));
  made = ground (arith, v.made, total-moved (unmade s.group.next) i (returned c w));
  in_map = v.in_map;
}

pub Reach-Inv : {k : ℕ} {s : System} → Reach k s → Inv s
Reach-Inv {k} started = started-Inv k
Reach-Inv (stepped {s} r (joins key i)) = joins-Inv key s i (Reach-Inv r)
Reach-Inv (stepped {s} r (completes v i)) = completes-Inv v s i (Reach-Inv r)
Reach-Inv (stepped {s} r (deletes v i e)) = deletes-Inv v s i e (Reach-Inv r)
Reach-Inv (stepped {s} r (wakes v i e)) = wakes-Inv v s i e (Reach-Inv r)
