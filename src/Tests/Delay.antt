-- ===== src/Tests/Delay.antt =====
-- Two labels that are due at once.
use agentic_ml_engineering_l.Base.{
  ℕ, zero, suc, Option, none, some, List, [], ◌∷◌, ◌≡◌, refl, arith, Exc, other_exception,
}
use agentic_ml_engineering_l.Simulator.DelayQueue.{
  Entry, Event, scheduled, turned, closed, new_dispatcher, run_events,
}
use agentic_ml_engineering_l.Simulator.DelayQueue.Sound.{requests, IsSound, run_events-IsSound}
use agentic_ml_engineering_l.Simulator.DelayQueue.Drained.{turns, calls, running, run_events-turns}

abbrev entry : ℕ → ℕ → Entry ℕ
entry run_at count = record { run_at = run_at; count = count; callback = count }

-- The callback 1 raises.
abbrev second_raises : ℕ → Option Exc
second_raises (suc zero) = some (other_exception "boom")
second_raises _ = none

abbrev events : List (Event ℕ)
events = scheduled 10 0 5 ∷ scheduled 2 1 6 ∷ turned 7 ∷ turned 9 ∷ turned 20 ∷ closed ∷ []

run_events-IsSound_example :
    IsSound (requests 0 events) (run_events second_raises events new_dispatcher)
run_events-IsSound_example = run_events-IsSound second_raises events

run_events-turns_example :
    run_events (λ c. none) (turns 9 2) (running (entry 8 0 ∷ entry 8 1 ∷ []) 2 [])
    ≡ running [] 2 (calls 9 (entry 8 0 ∷ entry 8 1 ∷ []))
run_events-turns_example =
    run_events-turns (λ c. none) (λ c. refl) 9 (entry 8 0 ∷ entry 8 1 ∷ []) 2 []
      (omega arith, (omega arith, tt))
