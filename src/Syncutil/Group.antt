-- ===== src/Syncutil/Group.antt =====
-- `Group` of syncutil/group.go: goroutines that are waited for, and their errors.
use go.Common.{
  ℕ, ◌+◌, ◌-◌, ◌≡◌, ◌↔◌, refl, arith, Bool, true, Option, none, some, List, [], ◌∷◌, ◌++◌, ◌==◌,
  length, length-append,
}
use go.Syncutil.Threads.{total, At, moved, total-moved}

-- `wg` is the counter of the `WaitGroup`.
pub record Group : Type 0 where
  pub wg : ℕ
  pub errs : List ℕ

-- A goroutine in `fn`, with an error that it has still to store, and at its end.
pub data Thread : Type 0 where
  executing : Thread
  storing : ℕ → Thread
  ended : Option ℕ → Thread

-- `Go` and the parts of its goroutine: `fn` has returned, and the error is stored.
unfoldable pub go_on : Group → Group
go_on g = record g { wg = g.wg + 1 }

unfoldable pub fn_returned : Option ℕ → Group → Thread × Group
fn_returned none g = (ended none, record g { wg = g.wg - 1 })
fn_returned (some e) g = (storing e, g)

unfoldable pub store : ℕ → Group → Group
store e g = record { wg = g.wg - 1; errs = g.errs ++ (e ∷ []) }

-- Whether `Wait` returns, and what `Err` and `Errs` then give.
unfoldable pub waits_no_more : Group → Bool
waits_no_more g = g.wg == 0

unfoldable pub first_err : Group → Option ℕ
first_err g = elim g.errs [ [] ↦ none | e ∷ _ ↦ some e ]

pub record System : Type 0 where
  pub group : Group
  pub threads : List Thread

pub data Step (s : System) : System → Type 0 where
  goes : Step s (record { group = go_on s.group; threads = executing ∷ s.threads })
  returns :
      (err : Option ℕ) (i : At s.threads executing)
      → Step s (record {
        group = (fn_returned err s.group).1;
        threads = moved i (fn_returned err s.group).0;
      })
  stores :
      {e : ℕ} (i : At s.threads (storing e))
      → Step s (record { group = store e s.group; threads = moved i (ended (some e)) })

pub data Reach : System → Type 0 where
  started : Reach (record { group = record { wg = 0; errs = [] }; threads = [] })
  stepped : {s t : System} → Reach s → Step s t → Reach t

-- The goroutines whose `fn` has returned an error, and those that have stored it.
unfoldable pub failed : Thread → ℕ
failed (storing e) = 1
failed (ended (some e)) = 1
failed t = 0

stored : Thread → ℕ
stored (ended (some e)) = 1
stored t = 0

busy : Thread → ℕ
busy (ended e) = 0
busy t = 1

record Inv (s : System) : Type 0 where
  counter : s.group.wg ≡ total busy s.threads
  kept : length s.group.errs ≡ total stored s.threads

returns-Inv :
    (err : Option ℕ) (s : System) (i : At s.threads executing)
    → Inv s
    → Inv (record {
      group = (fn_returned err s.group).1;
      threads = moved i (fn_returned err s.group).0;
    })
unfolding fn_returned busy stored
returns-Inv none s i v =
    let b = total-moved busy i (ended none) in
    let st = total-moved stored i (ended none) in
    record { counter = omega (arith, v.counter, b); kept = omega (arith, v.kept, st) }
returns-Inv (some e) s i v =
    let b = total-moved busy i (storing e) in
    let st = total-moved stored i (storing e) in
    record { counter = omega (arith, v.counter, b); kept = omega (arith, v.kept, st) }

stores-Inv :
    {e : ℕ} (s : System) (i : At s.threads (storing e))
    → Inv s
    → Inv (record { group = store e s.group; threads = moved i (ended (some e)) })
unfolding store busy stored
stores-Inv {e} s i v = record {
  counter = omega (arith, v.counter, total-moved busy i (ended (some e)));
  kept =
      omega
        (arith, v.kept, total-moved stored i (ended (some e)), length-append s.group.errs (e ∷ []));
}

Reach-Inv : {s : System} → Reach s → Inv s
unfolding go_on busy stored total
Reach-Inv started = record { counter = refl; kept = refl }
Reach-Inv (stepped {s} r goes) =
    let v = Reach-Inv r in
    record { counter = omega (arith, v.counter); kept = omega (arith, v.kept) }
Reach-Inv (stepped {s} r (returns err i)) = returns-Inv err s i (Reach-Inv r)
Reach-Inv (stepped {s} r (stores i)) = stores-Inv s i (Reach-Inv r)

-- Once no goroutine is busy, those that failed are those whose error is stored.
failed-stored : (ts : List Thread) → total busy ts ≡ 0 → total failed ts ≡ total stored ts
unfolding total busy failed stored
failed-stored [] z = refl
failed-stored (executing ∷ ts) z = absurd (omega (arith, z))
failed-stored (storing e ∷ ts) z = absurd (omega (arith, z))
failed-stored (ended none ∷ ts) z = omega (arith, failed-stored ts (omega (arith, z)))
failed-stored (ended (some e) ∷ ts) z = omega (arith, failed-stored ts (omega (arith, z)))

-- Where `Wait` returns, all goroutines have ended, there are as many errors as goroutines that returned
-- one, and `Err` gives nil exactly if none did.
pub all_errors_kept :
    {s : System}
    → Reach s
    → waits_no_more s.group ≡ true
    → (length s.group.errs ≡ total failed s.threads)
      × ((first_err s.group ≡ none) ↔ (total failed s.threads ≡ 0))
unfolding waits_no_more first_err
all_errors_kept {s} r w =
    let v = Reach-Inv r in
    let same = failed-stored s.threads (ground (arith, w, v.counter)) in
    let n : length s.group.errs ≡ total failed s.threads = omega (arith, v.kept, same) in
    (n, by_errs s.group.errs n)
  where
    by_errs :
        (errs : List ℕ)
        → length errs ≡ total failed s.threads
        → (first_err (record s.group { errs = errs }) ≡ none) ↔ (total failed s.threads ≡ 0)
    by_errs [] n = ground (arith, n)
    by_errs (e ∷ errs) n = ground (arith, n)
