-- ===== src/Simulator/DelayQueue/Drained.antt =====
-- delay_queue.py: callbacks that are due run, in the order of the heap.
use agentic_ml_engineering_l.Base.{
  ℕ, zero, suc, ◌≤◌, true, false, Option, none, List, [], ◌∷◌, ◌++◌, All, length, ltb, Exc, ◌≡◌,
  refl, ap, sym, ◌∙◌, Bool-cases, inl, inr, arith,
}
use agentic_ml_engineering_l.Simulator.DelayQueue.{
  Entry, DelayedDispatcher, Event, turned, called, turn_heap, turn, handle, run_events,
}

module _ {C : Type 0} where
  abbrev pub turns : ℕ → ℕ → List (Event C)
  turns now zero = []
  turns now (suc n) = turned now ∷ turns now n

  abbrev pub calls : ℕ → List (Entry C) → List (Entry C × ℕ)
  calls now [] = []
  calls now (e ∷ heap) = (e, now) ∷ calls now heap

  abbrev pub running : List (Entry C) → ℕ → List (Entry C × ℕ) → DelayedDispatcher C
  running heap counter ran = record {
    heap = heap;
    counter = counter;
    stop = false;
    alive = true;
    ran = ran;
  }

  append-nil : (xs : List (Entry C × ℕ)) → xs ++ [] ≡ xs
  append-nil [] = refl
  append-nil (x ∷ xs) = ap (◌∷◌ x) (append-nil xs)

  append-snoc :
      (xs : List (Entry C × ℕ)) (x : Entry C × ℕ) (zs : List (Entry C × ℕ))
      → (xs ++ x ∷ []) ++ zs ≡ xs ++ x ∷ zs
  append-snoc [] x zs = refl
  append-snoc (y ∷ xs) x zs = ap (◌∷◌ y) (append-snoc xs x zs)

  module _ (error : C → Option Exc) (quiet : (c : C) → error c ≡ none) (now : ℕ) where
    -- Where no callback raises and every entry of the heap is due, as many turns as there are entries
    -- call them all, in the order of the heap, and leave the heap empty.
    pub run_events-turns :
        (heap : List (Entry C)) (counter : ℕ) (ran : List (Entry C × ℕ))
        → All (λ (e : Entry C). e.run_at ≤ now) heap
        → run_events error (turns now (length heap)) (running heap counter ran)
          ≡ running [] counter (ran ++ calls now heap)
    unfolding run_events handle turn turn_heap called
    run_events-turns [] counter ran due = ap (running [] counter) (sym (append-nil ran))
    run_events-turns (e ∷ heap) counter ran due = elim (Bool-cases (ltb now e.run_at)) [
      | inl b ↦ absurd (let le = due.0 in ground arith)
      | inr b ↦
          rw (run_events, handle, turn, turn_heap, b, quiet e.callback, called)
            (run_events-turns heap counter (ran ++ (e, now) ∷ []) due.1
              ∙ ap (running [] counter) (append-snoc ran (e, now) (calls now heap)))
    ]
