-- ===== src/Simulator/DelayQueue.antt =====
-- services/source_simulator/src/source_simulator/delay_queue.py: callbacks that run at a time. C: a
-- callback. A time is a number of microseconds.
pub mod Sound
pub mod Drained
use agentic_ml_engineering_l.Base.{
  ℕ, suc, ◌+◌, Bool, true, false, not, ◌&&◌, ◌||◌, Option, none, some, List, [], ◌∷◌, ◌++◌, ◌==◌,
  ltb, leb, if◌then◌else◌, Exc,
}
use agentic_ml_engineering_l.Base.Equality.{nat_eq}

-- An entry of the heap: (run_at, count, callback).
pub record Entry (C : Type 0) : Type 0 where
  pub run_at : ℕ
  pub count : ℕ
  pub callback : C

-- The fields of the dispatcher; the heap in ascending order, so that its first entry is heap[0]. `ran`
-- has the entries whose callback was called, with the time of the call; `alive` is false once the thread
-- has ended.
pub record DelayedDispatcher (C : Type 0) : Type 0 where
  pub heap : List (Entry C)
  pub counter : ℕ
  pub stop : Bool
  pub alive : Bool
  pub ran : List (Entry C × ℕ)

-- A call of `schedule` with its delay and the clock, a turn of the thread's loop at a time, or `close`.
pub data Event (C : Type 0) : Type 0 where
  scheduled : ℕ → C → ℕ → Event C
  turned : ℕ → Event C
  closed : Event C

module _ {C : Type 0} where
  -- Tuples compare by run_at, then by count, and the counts differ.
  unfoldable pub before : Entry C → Entry C → Bool
  before a b = ltb a.run_at b.run_at || a.run_at == b.run_at && ltb a.count b.count

  unfoldable pub heappush : Entry C → List (Entry C) → List (Entry C)
  unfolding before
  heappush e [] = e ∷ []
  heappush e (f ∷ heap) =
      let rest = heappush e heap in if before e f then e ∷ f ∷ heap else f ∷ rest

  unfoldable pub new_dispatcher : DelayedDispatcher C
  new_dispatcher = record { heap = []; counter = 0; stop = false; alive = true; ran = [] }

  -- A delay is not negative here: `max(delay_seconds, 0.0)`.
  unfoldable pub schedule : ℕ → C → ℕ → DelayedDispatcher C → DelayedDispatcher C
  unfolding heappush
  schedule delay callback now d = record d {
    heap =
        heappush (record { run_at = now + delay; count = d.counter; callback = callback }) d.heap;
    counter = suc d.counter;
  }

module _ {C : Type 0} (error : C → Option Exc) where
  -- callback() and finally; an exception ends the thread.
  called : Option Exc → DelayedDispatcher C → DelayedDispatcher C
  called none d = d
  called (some e) d = record d { alive = false }

  -- One turn of the loop over a heap.
  turn_heap : ℕ → List (Entry C) → DelayedDispatcher C → DelayedDispatcher C
  unfolding called
  turn_heap now [] d = d
  turn_heap now (e ∷ heap) d =
      if ltb now e.run_at
      then d
      else called (error e.callback) (record d { heap = heap; ran = d.ran ++ (e, now) ∷ [] })

  unfoldable pub turn : ℕ → DelayedDispatcher C → DelayedDispatcher C
  unfolding turn_heap
  turn now d = if d.stop || not d.alive then d else turn_heap now d.heap d

  unfoldable pub handle : Event C → DelayedDispatcher C → DelayedDispatcher C
  unfolding schedule turn
  handle (scheduled delay callback now) d = schedule delay callback now d
  handle (turned now) d = turn now d
  handle closed d = record d { stop = true }

  unfoldable pub run_events : List (Event C) → DelayedDispatcher C → DelayedDispatcher C
  unfolding handle
  run_events [] d = d
  run_events (e ∷ events) d = run_events events (handle e d)
