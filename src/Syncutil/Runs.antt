-- ===== src/Syncutil/Runs.antt =====
-- Concrete runs of the systems of syncutil, and its theorems at concrete inputs.
use go.Common.{
  length, ℕ, ◌+◌, ◌≤◌, ◌<◌, ◌≡◌, ◌↔◌, ◌⊎◌, refl, true, false, none, some, List, [], ◌∷◌,
}
use go.Syncutil.Threads.{total, At}
use go.Syncutil.Sem
use go.Syncutil.Sem.Safety.{units_accounted, no_lost_wakeup}
use go.Syncutil.Gate
use go.Syncutil.Once
use go.Syncutil.Once.Safety.{succeeds_once}
use go.Syncutil.Group
use go.Syncutil.Singleflight
use go.Syncutil.Singleflight.Results.{one_in_flight, same_result, wait_ends}

-- Three units; the first thread has two of them, and the second waits for another two.
abbrev waits : Sem.System
waits = record { sem = record { max = 3; free = 1 }; threads = Sem.holding 2 ∷ Sem.waiting 2 ∷ [] }

abbrev at_first : {P : Type 0} (p : P) (ps : List P) → At (p ∷ ps) p
at_first p ps = record { before = []; behind = ps; split = refl }

abbrev at_second : {P : Type 0} (q p : P) (ps : List P) → At (q ∷ p ∷ ps) p
at_second q p ps = record { before = q ∷ []; behind = ps; split = refl }

waits-Reach : Sem.Reach 3 2 waits
unfolding Sem.new_sem Sem.too_many Sem.try_acquire Sem.after_try
waits-Reach =
    Sem.stepped
      (Sem.stepped
        (Sem.stepped (Sem.stepped Sem.started (Sem.begins 2 (at_first Sem.idle (Sem.idle ∷ []))))
          (Sem.tries (at_first (Sem.trying 2) (Sem.idle ∷ []))))
        (Sem.begins 2 (at_second (Sem.holding 2) Sem.idle [])))
      (Sem.tries (at_second (Sem.holding 2) (Sem.trying 2) []))

units_example :
    (waits.sem.free + total Sem.held waits.threads ≡ 3) × (total Sem.held waits.threads ≤ 3)
units_example = units_accounted waits-Reach

wakeup_example : (waits.sem.free < 2) × ((t : Sem.Thread) × At waits.threads t × (1 ≤ Sem.held t))
wakeup_example = no_lost_wakeup waits-Reach (at_second (Sem.holding 2) (Sem.waiting 2) [])

-- One of two operations runs.
abbrev one_runs : Gate.System
one_runs = record {
  gate = record { capacity = 1; buffered = 1 };
  threads = Gate.inside ∷ Gate.outside ∷ [];
}

one_runs-Reach : Gate.Reach 1 2 one_runs
unfolding Gate.new_gate Gate.start
one_runs-Reach =
    Gate.stepped Gate.opened
      (Gate.starts one_runs.gate (at_first Gate.outside (Gate.outside ∷ [])) refl)

at_most_max_example :
    (total Gate.running one_runs.threads ≤ 1)
    × ((Gate.start one_runs.gate ≡ none) ↔ (total Gate.running one_runs.threads ≡ 1))
    × ((Gate.done one_runs.gate ≡ none) ↔ (total Gate.running one_runs.threads ≡ 0))
at_most_max_example = Gate.at_most_max one_runs-Reach

-- The first thread has succeeded.
abbrev succeeded : Once.System
succeeded = record {
  once = record { locked = false; done = true };
  threads = Once.returned none ∷ Once.calling ∷ [];
  successes = 1;
}

succeeded-Reach : Once.Reach 2 succeeded
unfolding Once.load Once.lock Once.finish
succeeded-Reach =
    let rest = Once.calling ∷ [] in
    Once.stepped
      (Once.stepped (Once.stepped Once.started (Once.loads (at_first Once.calling rest)))
        (Once.locks (at_first Once.locking rest) refl))
      (Once.finishes none (at_first Once.running rest))

succeeds_once_example : total Once.in_f succeeded.threads + succeeded.successes ≤ 1
succeeds_once_example = succeeds_once succeeded-Reach

-- Two calls for the key 4: the first executes, and the second waits for it.
abbrev joined : Singleflight.System
unfolding Singleflight.new_group Singleflight.join
joined =
    let g = (Singleflight.join 4 Singleflight.new_group).1 in
    record { group = g; threads = Singleflight.executing 4 0 ∷ Singleflight.waiting 0 ∷ [] }

joined-Reach : Singleflight.Reach 2 joined
unfolding Singleflight.new_group Singleflight.join joined
joined-Reach =
    Singleflight.stepped
      (Singleflight.stepped Singleflight.started
        (Singleflight.joins 4 (at_first Singleflight.outside (Singleflight.outside ∷ []))))
      (Singleflight.joins 4 (at_second (Singleflight.executing 4 0) Singleflight.outside []))

one_in_flight_example : total (Singleflight.executes 4) joined.threads ≤ 1
one_in_flight_example = one_in_flight 4 joined-Reach

wait_ends_example :
    ((v : ℕ) × (joined.group.results 0 ≡ some v))
    ⊎ ((key : ℕ) × At joined.threads (Singleflight.executing key 0))
unfolding joined
wait_ends_example =
    wait_ends joined-Reach (at_second (Singleflight.executing 4 0) (Singleflight.waiting 0) [])

-- The call has given 9, and both callers have returned.
abbrev both_returned : Singleflight.System
unfolding joined Singleflight.complete Singleflight.delete
both_returned = record {
  group = Singleflight.delete 4 (Singleflight.complete 0 9 joined.group);
  threads = Singleflight.returned 0 9 ∷ Singleflight.returned 0 9 ∷ [];
}

both_returned-Reach : Singleflight.Reach 2 both_returned
unfolding both_returned
both_returned-Reach =
    let late = Singleflight.waiting 0 ∷ [] in
    Singleflight.stepped
      (Singleflight.stepped
        (Singleflight.stepped joined-Reach
          (Singleflight.completes 9 (at_first (Singleflight.executing 4 0) late)))
        (Singleflight.deletes 9 (at_first (Singleflight.deleting 4 0) late) refl))
      (Singleflight.wakes 9 (at_second (Singleflight.returned 0 9) (Singleflight.waiting 0) [])
        refl)

abbrev nine : ℕ
nine = 9

same_result_example : (both_returned.group.results 0 ≡ some 9) × (nine ≡ 9)
unfolding both_returned
same_result_example =
    same_result both_returned-Reach
      (at_first (Singleflight.returned 0 9) (Singleflight.returned 0 9 ∷ []))
      (at_second (Singleflight.returned 0 9) (Singleflight.returned 0 9) [])

-- One goroutine has given nil, and one the error 5.
abbrev one_failed : Group.System
one_failed = record {
  group = record { wg = 0; errs = 5 ∷ [] };
  threads = Group.ended none ∷ Group.ended (some 5) ∷ [];
}

one_failed-Reach : Group.Reach one_failed
unfolding Group.go_on Group.fn_returned Group.store
one_failed-Reach =
    let first = Group.executing in
    Group.stepped
      (Group.stepped
        (Group.stepped (Group.stepped (Group.stepped Group.started Group.goes) Group.goes)
          (Group.returns (some 5) (at_second first first [])))
        (Group.returns none (at_first first (Group.storing 5 ∷ []))))
      (Group.stores (at_second (Group.ended none) (Group.storing 5) []))

no_more_waiting : Group.waits_no_more one_failed.group ≡ true
unfolding Group.waits_no_more
no_more_waiting = refl

all_errors_kept_example :
    (length one_failed.group.errs ≡ total Group.failed one_failed.threads)
    × ((Group.first_err one_failed.group ≡ none) ↔ (total Group.failed one_failed.threads ≡ 0))
all_errors_kept_example = Group.all_errors_kept one_failed-Reach no_more_waiting
