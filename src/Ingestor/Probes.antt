-- ===== src/Ingestor/Probes.antt =====
-- consumer.py, the probes, and api.py's status codes.
use agentic_ml_engineering_l.Base.{
  ℕ, ◌-◌, ◌≤◌, String, Bool, true, false, not, ◌&&◌, Option, none, some, ◌≡◌, ◌==◌, ◌↔◌, ltb, arith,
  ◌⊎◌, if◌then◌else◌,
}
use agentic_ml_engineering_l.Base.Equality.{string_eq}
use agentic_ml_engineering_l.Ingestor.{Settings}

-- The fields that the probes read; `thread_alive` is none before `start`.
pub record ProbeState : Type 0 where
  pub loop_error : Option String
  pub thread_alive : Option Bool
  pub stop_set : Bool
  pub last_progress_at : ℕ
  pub assigned : Bool
  pub last_commit_error : Option String

-- The reasons, without their layout as text.
pub data Reason : Type 0 where
  loop_died : String → Reason
  thread_exited : Reason
  stalled_for : ℕ → Reason
  live : Reason
  no_assignment : Reason
  commit_rejected : String → Reason
  ready : Reason

-- `if self.loop_error:`; the text, unless it is None or empty.
abbrev pub truthy : Option String → Option String
truthy none = none
truthy (some t) = if t == "" then none else some t

-- A thread that was started and is not alive.
abbrev pub exited : Option Bool → Bool
exited none = false
exited (some alive) = not alive

abbrev pub started : Option Bool → Bool
started none = false
started (some alive) = true

-- `now` is the clock; it does not run backwards.
unfoldable pub liveness : Settings → ℕ → ProbeState → Bool × Reason
liveness s now p = elim (truthy p.loop_error) [
  | some t ↦ (false, loop_died t)
  | none ↦
      if exited p.thread_alive && not p.stop_set
      then (false, thread_exited)
      else if started p.thread_alive && ltb s.stall_timeout (now - p.last_progress_at)
      then (false, stalled_for (now - p.last_progress_at))
      else (true, live)
]

unfoldable pub readiness : Settings → ℕ → ProbeState → Bool × Reason
unfolding liveness
readiness s now p =
    if (liveness s now p).0
    then if p.assigned
      then elim (truthy p.last_commit_error) [
        | some t ↦ (false, commit_rejected t)
        | none ↦ (true, ready)
      ]
      else (false, no_assignment)
    else (false, (liveness s now p).1)

unfoldable pub status_code : Bool × Reason → ℕ
status_code r = if r.0 then 200 else 503

-- What the docstring calls alive: no recorded death, no unexpected exit, progress in time.
pub record IsAlive (s : Settings) (now : ℕ) (p : ProbeState) : Type 0 where
  pub no_error : truthy p.loop_error ≡ none
  pub running : (exited p.thread_alive ≡ false) ⊎ (p.stop_set ≡ true)
  pub moving : (started p.thread_alive ≡ false) ⊎ (now - p.last_progress_at ≤ s.stall_timeout)

-- GET /health gives 200 exactly when the loop is alive.
pub liveness-IsAlive :
    (s : Settings) (now : ℕ) (p : ProbeState)
    → (status_code (liveness s now p) ≡ 200) ↔ IsAlive s now p
unfolding liveness status_code
liveness-IsAlive s now p = (λ h. ground arith, λ h. ground arith)

-- GET /ready gives 200 exactly when the loop is alive, partitions are assigned, and the last offset
-- commit was not rejected (with a text).
pub readiness-IsReady :
    (s : Settings) (now : ℕ) (p : ProbeState)
    → (status_code (readiness s now p) ≡ 200)
      ↔ (IsAlive s now p × (p.assigned ≡ true) × (truthy p.last_commit_error ≡ none))
unfolding readiness status_code
readiness-IsReady s now p = (λ h. ground arith, λ h. ground arith)
