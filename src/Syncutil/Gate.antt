-- ===== src/Syncutil/Gate.antt =====
-- `Gate` of syncutil/gate.go: a limit on the operations that run at once.
use go.Common.{
  ℕ, ◌+◌, ◌-◌, ◌≤◌, ◌≡◌, ◌↔◌, refl, arith, Option, none, some, List, ltb, ◌==◌, if◌then◌else◌,
  replicate,
}
use go.Syncutil.Threads.{total, At, moved, total-moved, total-replicate}

-- The channel of the gate: its capacity and how many values it buffers.
pub record Gate : Type 0 where
  pub capacity : ℕ
  pub buffered : ℕ

unfoldable pub new_gate : ℕ → Gate
new_gate max = record { capacity = max; buffered = 0 }

-- `Start`: a send, which blocks (none) while the buffer is full.
unfoldable pub start : Gate → Option Gate
start g = if ltb g.buffered g.capacity then some (record g { buffered = g.buffered + 1 }) else none

-- `Done`: a receive; none where it panics.
unfoldable pub done : Gate → Option Gate
done g = if g.buffered == 0 then none else some (record g { buffered = g.buffered - 1 })

pub data Thread : Type 0 where
  outside inside : Thread

pub record System : Type 0 where
  pub gate : Gate
  pub threads : List Thread

-- A thread that has started is done once.
pub data Step (s : System) : System → Type 0 where
  starts :
      (g : Gate) (i : At s.threads outside)
      → start s.gate ≡ some g
      → Step s (record { gate = g; threads = moved i inside })
  ends :
      (g : Gate) (i : At s.threads inside)
      → done s.gate ≡ some g
      → Step s (record { gate = g; threads = moved i outside })

pub data Reach (max k : ℕ) : System → Type 0 where
  opened : Reach max k (record { gate = new_gate max; threads = replicate k outside })
  stepped : {s t : System} → Reach max k s → Step s t → Reach max k t

unfoldable pub running : Thread → ℕ
running inside = 1
running outside = 0

record Inv (max : ℕ) (s : System) : Type 0 where
  capacity : s.gate.capacity ≡ max
  counted : s.gate.buffered ≡ total running s.threads
  bounded : s.gate.buffered ≤ max

Reach-Inv : {max k : ℕ} {s : System} → Reach max k s → Inv max s
unfolding new_gate start done running
Reach-Inv {max} {k} opened = record {
  capacity = refl;
  counted = omega (arith, total-replicate running outside k refl);
  bounded = omega arith;
}
Reach-Inv {max} (stepped {s} r (starts g i e)) =
    let v = Reach-Inv r in
    let t = total-moved running i inside in
    record {
      capacity = ground (arith, e, v.capacity);
      counted = ground (arith, e, v.counted, t);
      bounded = ground (arith, e, v.capacity, v.bounded);
    }
Reach-Inv {max} (stepped {s} r (ends g i e)) =
    let v = Reach-Inv r in
    let t = total-moved running i outside in
    record {
      capacity = ground (arith, e, v.capacity);
      counted = ground (arith, e, v.counted, t);
      bounded = ground (arith, e, v.capacity, v.bounded);
    }

-- Never more than `max` operations run at once; `Start` blocks exactly while `max` of them run; and `Done`
-- panics only where none runs.
pub at_most_max :
    {max k : ℕ} {s : System}
    → Reach max k s
    → (total running s.threads ≤ max)
      × ((start s.gate ≡ none) ↔ (total running s.threads ≡ max))
      × ((done s.gate ≡ none) ↔ (total running s.threads ≡ 0))
unfolding start done
at_most_max {max} {k} {s} r =
    let v = Reach-Inv r in
    (
      omega (arith, v.counted, v.bounded),
      ground (arith, v.capacity, v.counted, v.bounded),
      ground (arith, v.counted),
    )
