-- ===== src/Simulator/DelayQueue/Sound.antt =====
-- delay_queue.py: no callback runs early, none is lost, and the earliest is first.
use agentic_ml_engineering_l.Base.{
  ℕ, suc, ◌+◌, ◌≤◌, not, ◌||◌, Option, none, some, List, [], ◌∷◌, ◌++◌, All, All-append, All-map,
  length, length-append, subst, sym, ◌∙◌, ltb, Exc, ◌≡◌, refl, ap, inl, inr, Bool-cases, arith,
}
use mathlib.Core.List.{Permᴰ, append-nil, append_assoc}
use agentic_ml_engineering_l.Base.Equality.{nat_eq}
use agentic_ml_engineering_l.Base.Perm.{Perm-refl, Perm-swap, Perm-snoc}
use agentic_ml_engineering_l.Simulator.DelayQueue.{
  Entry, DelayedDispatcher, Event, scheduled, turned, closed, before, heappush, new_dispatcher,
  schedule, called, turn_heap, turn, handle, run_events,
}

module _ {C : Type 0} where
  abbrev pub IsAscending : List (Entry C) → Type 0
  IsAscending [] = Unit
  IsAscending (e ∷ heap) = All (λ (f : Entry C). e.run_at ≤ f.run_at) heap × IsAscending heap

  pub All-heappush :
      (P : Entry C → Type 0) (e : Entry C) (heap : List (Entry C))
      → P e
      → All P heap
      → All P (heappush e heap)
  unfolding heappush
  All-heappush P e [] p h = (p, tt)
  All-heappush P e (f ∷ heap) p h = elim (Bool-cases (before e f)) [
    | inl b ↦ rw b (p, h)
    | inr b ↦ rw b (h.0, All-heappush P e heap p h.1)
  ]

  All-turn_heap :
      (P : Entry C → Type 0) (now : ℕ) (heap : List (Entry C)) (d : DelayedDispatcher C)
      → All P heap
      → All P d.heap
      → All P (turn_heap (λ _. none) now heap d).heap
  unfolding turn_heap called
  All-turn_heap P now [] d h k = k
  All-turn_heap P now (e ∷ heap) d h k = elim (Bool-cases (ltb now e.run_at)) [
    | inl b ↦ rw b k
    | inr b ↦ rw b h.1
  ]

  -- A turn whose callback raises nothing adds no entry.
  pub All-turn :
      (P : Entry C → Type 0) (now : ℕ) (d : DelayedDispatcher C)
      → All P d.heap
      → All P (turn (λ _. none) now d).heap
  unfolding turn
  All-turn P now d h = elim (Bool-cases (d.stop || not d.alive)) [
    | inl b ↦ rw b h
    | inr b ↦ rw b (All-turn_heap P now d.heap d h h)
  ]

  heappush-IsAscending :
      (e : Entry C) (heap : List (Entry C)) → IsAscending heap → IsAscending (heappush e heap)
  unfolding heappush
  heappush-IsAscending e [] h = (tt, tt)
  heappush-IsAscending e (f ∷ heap) h = elim (Bool-cases (before e f)) [
    | inl b ↦
        let le : e.run_at ≤ f.run_at =
          unfold before in ground (arith, nat_eq.same_iff e.run_at f.run_at) in
        rw b ((le, All-map _ _ heap (λ g q. omega arith) h.0), h)
    | inr b ↦
        let le : f.run_at ≤ e.run_at =
          unfold before in ground (arith, nat_eq.same_iff e.run_at f.run_at) in
        rw b (All-heappush _ e heap le h.0, heappush-IsAscending e heap h.1)
  ]

  heappush-Perm : (e : Entry C) (heap : List (Entry C)) → Permᴰ (e ∷ heap) (heappush e heap)
  unfolding heappush
  heappush-Perm e [] = Perm-refl (e ∷ [])
  heappush-Perm e (f ∷ heap) = elim (Bool-cases (before e f)) [
    | inl b ↦ rw b (Perm-refl (e ∷ f ∷ heap))
    | inr b ↦ rw b (Permᴰ.trans (Perm-swap e f heap) (Permᴰ.cons refl (heappush-Perm e heap)))
  ]

  -- The entries that the calls of `schedule` ask for: each is due its delay after the clock of its
  -- call, with its callback and the number of the calls before it.
  abbrev pub requests : ℕ → List (Event C) → List (Entry C)
  requests k [] = []
  requests k (scheduled delay callback now ∷ events) =
      record { run_at = now + delay; count = k; callback = callback } ∷ requests (suc k) events
  requests k (turned now ∷ events) = requests k events
  requests k (closed ∷ events) = requests k events

  abbrev pub called_entries : List (Entry C × ℕ) → List (Entry C)
  called_entries [] = []
  called_entries ((e, t) ∷ ran) = e ∷ called_entries ran

  called_entries-append :
      (ran : List (Entry C × ℕ)) (e : Entry C) (t : ℕ) (heap : List (Entry C))
      → called_entries (ran ++ (e, t) ∷ []) ++ heap ≡ called_entries ran ++ e ∷ heap
  called_entries-append [] e t heap = refl
  called_entries-append ((f, u) ∷ ran) e t heap = ap (◌∷◌ f) (called_entries-append ran e t heap)

  -- The heap is in order; no callback was called before its time; and the entries that were asked for
  -- are those whose callback was called and those that wait, each as often as it was asked for.
  pub record IsSound (asked : List (Entry C)) (d : DelayedDispatcher C) : Type 0 where
    pub counted : d.counter ≡ length asked
    pub ascending : IsAscending d.heap
    pub due : All (λ (r : Entry C × ℕ). r.0.run_at ≤ r.1) d.ran
    pub kept : Permᴰ asked (called_entries d.ran ++ d.heap)

  schedule-IsSound :
      (asked : List (Entry C)) (k delay : ℕ) (callback : C) (now : ℕ) (d : DelayedDispatcher C)
      → length asked ≡ k
      → IsSound asked d
      → IsSound
          (asked ++ record { run_at = now + delay; count = k; callback = callback } ∷ [])
          (schedule delay callback now d)
  unfolding schedule
  schedule-IsSound asked k delay callback now d q s =
      let e : Entry C = record { run_at = now + delay; count = k; callback = callback } in
      rw (s.counted ∙ q) (record {
        counted = omega (arith, length-append asked (e ∷ []));
        ascending = heappush-IsAscending e d.heap s.ascending;
        due = s.due;
        kept = Perm-snoc asked (called_entries d.ran) d.heap e s.kept (heappush-Perm e d.heap);
      })

  module _ (error : C → Option Exc) where
    called-IsSound :
        (asked : List (Entry C)) (o : Option Exc) (d : DelayedDispatcher C)
        → IsSound asked d
        → IsSound asked (called error o d)
    unfolding called
    called-IsSound asked none d s = s
    called-IsSound asked (some e) d s = record {
      counted = s.counted;
      ascending = s.ascending;
      due = s.due;
      kept = s.kept;
    }

    popped-IsSound :
        (asked : List (Entry C)) (e : Entry C) (heap : List (Entry C)) (now : ℕ)
        (d : DelayedDispatcher C)
        → d.heap ≡ e ∷ heap
        → e.run_at ≤ now
        → IsSound asked d
        → IsSound asked (record d { heap = heap; ran = d.ran ++ (e, now) ∷ [] })
    popped-IsSound asked e heap now d q le s = record {
      counted = s.counted;
      ascending = (rw q at s.ascending).1;
      due = All-append _ d.ran ((e, now) ∷ []) s.due (le, tt);
      kept =
          subst (λ l. Permᴰ asked l)
            (ap (λ h. called_entries d.ran ++ h) q ∙ sym (called_entries-append d.ran e now heap))
            s.kept;
    }

    turn_heap-IsSound :
        (asked : List (Entry C)) (now : ℕ) (heap : List (Entry C)) (d : DelayedDispatcher C)
        → d.heap ≡ heap
        → IsSound asked d
        → IsSound asked (turn_heap error now heap d)
    unfolding turn_heap
    turn_heap-IsSound asked now [] d q s = s
    turn_heap-IsSound asked now (e ∷ heap) d q s = elim (Bool-cases (ltb now e.run_at)) [
      | inl b ↦ simp b s
      | inr b ↦ simp b (
          called-IsSound asked (error e.callback) _
            (popped-IsSound asked e heap now d q (ground arith) s))
    ]

    turn-IsSound :
        (asked : List (Entry C)) (now : ℕ) (d : DelayedDispatcher C)
        → IsSound asked d
        → IsSound asked (turn error now d)
    unfolding turn
    turn-IsSound asked now d s = elim (Bool-cases (d.stop || not d.alive)) [
      | inl b ↦ simp b s
      | inr b ↦ simp b (turn_heap-IsSound asked now d.heap d refl s)
    ]

    from_any :
        (events : List (Event C)) (k : ℕ) (asked : List (Entry C)) (d : DelayedDispatcher C)
        → length asked ≡ k
        → IsSound asked d
        → IsSound (asked ++ requests k events) (run_events error events d)
    unfolding run_events handle
    from_any [] k asked d q s = subst (λ l. IsSound l d) (sym (append-nil asked)) s
    from_any (scheduled delay callback now ∷ events) k asked d q s =
        let e : Entry C = record { run_at = now + delay; count = k; callback = callback } in
        subst (λ l. IsSound l (run_events error events (schedule delay callback now d)))
          (append_assoc asked (e ∷ []) (requests (suc k) events))
          (from_any events (suc k) (asked ++ e ∷ []) (schedule delay callback now d)
            (omega (arith, length-append asked (e ∷ [])))
            (schedule-IsSound asked k delay callback now d q s))
    from_any (turned now ∷ events) k asked d q s =
        from_any events k asked (turn error now d) q (turn-IsSound asked now d s)
    from_any (closed ∷ events) k asked d q s =
        from_any events k asked _ q
          (record { counted = s.counted; ascending = s.ascending; due = s.due; kept = s.kept })

    -- Whatever is scheduled, whenever the thread turns, and whichever callback raises: the heap is in the
    -- order of the times; no callback was called before its time; and the entries whose callback was
    -- called, with those that wait, are exactly those that the calls of `schedule` asked for, each with
    -- its callback and due its delay after the clock of the call: none is lost, and none runs twice.
    pub run_events-IsSound :
        (events : List (Event C))
        → IsSound (requests 0 events) (run_events error events new_dispatcher)
    unfolding new_dispatcher
    run_events-IsSound events =
        from_any events 0 [] _ refl
          (record { counted = refl; ascending = tt; due = tt; kept = Permᴰ.nil })
