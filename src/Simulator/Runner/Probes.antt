-- ===== src/Simulator/Runner/Probes.antt =====
-- simulator.py, `liveness`, `readiness` and `record_delivery`, with the status codes of api.py. A time is a
-- number of microseconds.
pub mod Latest
use Prim.Native.String.{◌++◌}
use agentic_ml_engineering_l.Base.{
  ℕ, ◌-◌, String, Bool, true, false, not, ◌&&◌, ◌||◌, ◌==◌, Option, none, some, if◌then◌else◌, ltb,
  ◌≡◌,
}
use agentic_ml_engineering_l.Base.Equality.{string_eq}
use agentic_ml_engineering_l.Simulator.Runner.{ProducerHealth}

-- What the probes read: the two threads, the events, and the time of the last row.
pub record Probed : Type 0 where
  pub started : Bool
  pub thread_alive : Bool
  pub poll_thread_alive : Bool
  pub stop : Bool
  pub paused : Bool
  pub ready : Bool
  pub last_progress_at : ℕ
  pub health : ProducerHealth

-- Settings, and the text of a number of seconds.
pub record Windows : Type 0 where
  pub stall_timeout : ℕ
  pub readiness_error_window : ℕ
  pub seconds : ℕ → String

-- An empty text is false.
abbrev pub truthy : Option String → Bool
truthy none = false
truthy (some t) = not (t == "")

abbrev pub shown : Option String → String
shown none = "None"
shown (some t) = t

module _ (s : Windows) where
  -- A row of the loop is overdue.
  unfoldable pub stalled : ℕ → Probed → Bool
  stalled now p =
      p.started && not p.paused && p.ready && ltb s.stall_timeout (now - p.last_progress_at)

  unfoldable pub liveness : ℕ → Probed → Bool × String
  unfolding stalled
  liveness now p =
      if truthy p.health.fatal_error
      then (false, "kafka producer fatal error: " ++ shown p.health.fatal_error)
      else if truthy p.health.loop_error
      then (false, "simulator loop died: " ++ shown p.health.loop_error)
      else if p.started && not p.thread_alive && not p.stop
      then (false, "simulator loop thread exited unexpectedly")
      else if not p.poll_thread_alive
      then (false, "kafka producer poll thread exited")
      else if stalled now p
      then (false, "simulator loop stalled for " ++ s.seconds (now - p.last_progress_at) ++ "s")
      else (true, "ok")

  -- ok_at is not None and ok_at > err_at
  abbrev pub recovered : Option ℕ → ℕ → Bool
  recovered none err_at = false
  recovered (some ok_at) err_at = ltb err_at ok_at

  unfoldable pub failing : ℕ → Option ℕ → Option ℕ → Bool
  failing now none ok_at = false
  failing now (some err_at) ok_at =
      not (recovered ok_at err_at || ltb s.readiness_error_window (now - err_at))

  after_liveness : ℕ → Bool × String → Probed → Bool × String
  unfolding failing
  after_liveness now (false, reason) p = (false, reason)
  after_liveness now (true, reason) p =
      if not p.ready
      then (false, "dataset not yet available")
      else if failing now p.health.last_delivery_error_at p.health.last_delivery_ok_at
      then (false, "kafka delivery failing: " ++ shown p.health.last_delivery_error)
      else (true, "ready")

  unfoldable pub readiness : ℕ → Probed → Bool × String
  unfolding after_liveness liveness
  readiness now p = after_liveness now (liveness now p) p

-- GET /health and GET /ready: the status code and the text.
unfoldable pub probe_response : Bool × String → ℕ × String
probe_response (up, reason) = (if up then 200 else 503, reason)
