-- ===== src/Simulator/Runner/Probes/Latest.antt =====
-- simulator.py: readiness against the history of the delivery reports.
use agentic_ml_engineering_l.Base.{
  ℕ, ◌-◌, ◌<◌, ◌≤◌, Bool, true, false, Option, none, some, List, [], ◌∷◌, All, ◌≡◌, refl, ◌↔◌,
  arith, String,
}
use agentic_ml_engineering_l.Simulator.Runner.{ProducerHealth}
use agentic_ml_engineering_l.Simulator.Runner.Loop.{Report, delivered, failed, record_delivery}
use agentic_ml_engineering_l.Simulator.Runner.Probes.{
  Probed, Windows, liveness, failing, after_liveness, readiness, probe_response,
}

-- The health after the reports of a history, the latest first.
abbrev pub health_of : ProducerHealth → List (Report × ℕ) → ProducerHealth
unfolding record_delivery
health_of h [] = h
health_of h ((report, at) ∷ older) = record_delivery report at (health_of h older)

-- Each report has a later time than those before it.
abbrev pub IsHistory : List (Report × ℕ) → Type 0
IsHistory [] = Unit
IsHistory ((report, at) ∷ older) = All (λ r. r.1 < at) older × IsHistory older

-- The latest report is an error, and no older than the window.
abbrev pub LatestFails : ℕ → ℕ → List (Report × ℕ) → Type 0
LatestFails window now [] = ⊥
LatestFails window now ((delivered, at) ∷ older) = ⊥
LatestFails window now ((failed err fatal, at) ∷ older) = now - at ≤ window

-- A time that is known is earlier.
Before : Option ℕ → ℕ → Type 0
Before none at = Unit
Before (some t) at = t < at

module _ (h : ProducerHealth) (no_error : h.last_delivery_error_at ≡ none)
    (no_ok : h.last_delivery_ok_at ≡ none) where
  error_at-Before :
      (at : ℕ) (history : List (Report × ℕ))
      → All (λ r. r.1 < at) history
      → Before (health_of h history).last_delivery_error_at at
  unfolding Before record_delivery
  error_at-Before at [] a = rw no_error tt
  error_at-Before at ((delivered, t) ∷ older) a = error_at-Before at older a.1
  error_at-Before at ((failed err fatal, t) ∷ older) a = a.0

  ok_at-Before :
      (at : ℕ) (history : List (Report × ℕ))
      → All (λ r. r.1 < at) history
      → Before (health_of h history).last_delivery_ok_at at
  unfolding Before record_delivery
  ok_at-Before at [] a = rw no_ok tt
  ok_at-Before at ((delivered, t) ∷ older) a = a.0
  ok_at-Before at ((failed err fatal, t) ∷ older) a = ok_at-Before at older a.1

  module _ (s : Windows) (now : ℕ) where
    failing-recovered :
        (err_at : Option ℕ) (at : ℕ) → Before err_at at → failing s now err_at (some at) ≡ false
    unfolding failing Before
    failing-recovered none at b = refl
    failing-recovered (some e) at b = ground (arith, b)

    failing-current :
        (ok_at : Option ℕ) (at : ℕ)
        → Before ok_at at
        → (failing s now (some at) ok_at ≡ true) ↔ (now - at ≤ s.readiness_error_window)
    unfolding failing Before
    failing-current none at b = ground arith
    failing-current (some t) at b = ground (arith, b)

    failing_lem :
        (history : List (Report × ℕ))
        → IsHistory history
        → let k = health_of h history in
          (failing s now k.last_delivery_error_at k.last_delivery_ok_at ≡ true)
          ↔ LatestFails s.readiness_error_window now history
    unfolding record_delivery
    failing_lem [] i = rw no_error (unfold failing in ground arith)
    failing_lem ((delivered, at) ∷ older) i =
        rw
          (failing-recovered (health_of h older).last_delivery_error_at at
            (error_at-Before at older i.0))
          (ground arith)
    failing_lem ((failed err fatal, at) ∷ older) i =
        failing-current (health_of h older).last_delivery_ok_at at (ok_at-Before at older i.0)

    after_liveness-ready :
        (l : Bool × String) (p : Probed) (history : List (Report × ℕ))
        → p.health ≡ health_of h history
        → IsHistory history
        → ((probe_response (after_liveness s now l p)).0 ≡ 200)
          ↔ ((l.0 ≡ true) × (p.ready ≡ true) × ¬ LatestFails s.readiness_error_window now history)
    unfolding after_liveness probe_response
    after_liveness-ready (false, reason) p history e i = ground arith
    after_liveness-ready (true, reason) p history e i = rw e (ground (arith, failing_lem history i))

-- The health of a producer without reports.
abbrev pub new_health : ProducerHealth
new_health = record {
  delivery_failures = 0;
  last_delivery_error = none;
  last_delivery_error_at = none;
  last_delivery_ok_at = none;
  fatal_error = none;
  loop_error = none;
}

-- GET /ready answers 200 where the runner is live, the dataset is there, and the latest of the
-- delivery reports is not an error that is within the window, and it does only there; the reports have
-- increasing times.
pub readiness-ready :
    (s : Windows) (now : ℕ) (p : Probed) (history : List (Report × ℕ))
    → p.health ≡ health_of new_health history
    → IsHistory history
    → ((probe_response (readiness s now p)).0 ≡ 200) ↔ (
        ((liveness s now p).0 ≡ true)
        × (p.ready ≡ true)
        × ¬ LatestFails s.readiness_error_window now history)
unfolding readiness
readiness-ready s now p history e i =
    after_liveness-ready new_health refl refl s now (liveness s now p) p history e i
