-- ===== src/Tests/SimulatorRun.antt =====
-- The simulator at small inputs: a row that is sent twice, a duplicate that is refused, the reports of
-- deliveries, bursts, and the data directory.
use agentic_ml_engineering_l.Base.{
  ℕ, zero, suc, ◌+◌, ◌*◌, ◌%◌, ◌≤◌, ◌<◌, String, Bool, true, false, none, some, List, [], ◌∷◌,
  length, ◌==◌, if◌then◌else◌, ltb, ◌≡◌, refl, arith, ok, kafka_exception, other_exception,
  get_elem?, ◌↔◌,
}
use agentic_ml_engineering_l.Base.Equality.{string_eq, nat_eq}
use agentic_ml_engineering_l.Base.Int.{pos}
use agentic_ml_engineering_l.Schemas.Features.{higgs_feature_names, features_match_higgs_schema}
use agentic_ml_engineering_l.Simulator.Malformed.{
  FeatureStrategy, LabelStrategy, DroppableFeature, DroppableLabel, two,
}
use agentic_ml_engineering_l.Simulator.DelayQueue.{new_dispatcher}
use agentic_ml_engineering_l.Simulator.Dataset.{
  Parsing, HiggsRow, DataDir, Response, ensure_dataset, stream_rows, one_pass,
}
use agentic_ml_engineering_l.Simulator.Dataset.Whole.{starts, IsWhole, ensure_dataset-IsWhole}
use agentic_ml_engineering_l.Simulator.Dataset.Cycle.{stream_rows-cycle}
use agentic_ml_engineering_l.Simulator.Runner.{Settings, Float, Kafka}
use agentic_ml_engineering_l.Simulator.Runner.Events.{Draws, feature_message}
use agentic_ml_engineering_l.Simulator.Runner.Loop.{
  Activity, begun, row, turned, stopped, run, new_runner, turn_row, Report, delivered, failed,
}
use agentic_ml_engineering_l.Simulator.Runner.Faithful.{IsFaithful}
use agentic_ml_engineering_l.Simulator.Runner.Faithful.Always.{run-IsFaithful}
use agentic_ml_engineering_l.Simulator.Runner.Unlabelled.{turn_row-unlabelled}
use agentic_ml_engineering_l.Simulator.Runner.Probes.{
  Probed, Windows, liveness, readiness, probe_response,
}
use agentic_ml_engineering_l.Simulator.Runner.Probes.Latest.{
  health_of, new_health, LatestFails, readiness-ready,
}
use agentic_ml_engineering_l.Simulator.Runner.Rate.{
  RateSettings, effective_rate, count_times, effective_rate-burst,
}
use agentic_ml_engineering_l.Tests.Samples.{pydantic, zeros}

-- A float is a number of tenths.
abbrev numbers : Float ℕ
numbers = record { lt = ltb; one = 10 }

abbrev parsing : Parsing ℕ
parsing = record {
  to_float = λ t. ok (if t == "1.0" then 10 else 0);
  to_int = λ n. ok (pos (if n == 10 then 1 else 0));
}

abbrev repeated : ℕ → String → List String
repeated zero t = []
repeated (suc n) t = t ∷ repeated n t

abbrev cells : List String
cells = "1.0" ∷ repeated 28 "0.5"

abbrev name : ℕ → String
name n = "higgs-000000007"

-- Half of the events are malformed, and half are sent twice.
abbrev settings : Settings ℕ
settings = record {
  features_topic = "higgs.features.v1";
  labels_topic = "higgs.labels.v1";
  service_name = "source_simulator";
  invalid_event_rate = 5;
  duplicate_rate = 5;
  label_delay = 2;
}

-- The feature is sent twice, the label is malformed.
abbrev draws : Draws ℕ String
draws = record {
  feature_draw = record {
    invalid = 9;
    duplicate = 0;
    strategy = FeatureStrategy.drop_field;
    field = DroppableFeature.entity_id;
  };
  label_draw = record {
    invalid = 0;
    duplicate = 9;
    strategy = LabelStrategy.target_out_of_range;
    field = DroppableLabel.target;
    bad = two;
  };
  trace_id = "t";
  feature_now = "2026-07-01T00:00:00Z";
  label_now = "2026-07-01T00:00:10Z";
  monotonic = 3;
}

-- Kafka refuses the call with this number.
abbrev refuses : ℕ → Kafka
refuses n = record {
  produce_error = λ k. if k == n then some (kafka_exception "timed out") else none;
  is_fatal = λ e. false;
}

abbrev archive : Response ℕ
archive = record { status_error = none; chunks = 1 ∷ 2 ∷ []; broken = none }

abbrev activities : List (Activity ℕ String ℕ)
activities =
    begun archive (record { dest = none; part = none })
    ∷ row cells draws
    ∷ turned 9
    ∷ row cells draws
    ∷ stopped
    ∷ []

length-run :
    length
      (run pydantic numbers parsing name settings (refuses 4) activities (new_runner 7)).world.log
    ≡ 4
unfolding run features_match_higgs_schema new_dispatcher
length-run = refl

run-IsFaithful_example :
    IsFaithful pydantic settings
      (run pydantic numbers parsing name settings (refuses 4) activities (new_runner 7)).world
run-IsFaithful_example =
    run-IsFaithful pydantic numbers parsing name settings (refuses 4) activities 7

abbrev higgs : HiggsRow ℕ
higgs = record { target = pos 1; features = zeros higgs_feature_names }

turn_row-unlabelled_example :
    let after =
      turn_row pydantic numbers parsing name settings (refuses 1) (ok higgs) draws (new_runner 7) in
    let m = feature_message pydantic numbers settings (refuses 1) (name 7) higgs.features draws in
    (after.world.log ≡ m ∷ [])
    × (after.world.counters.features_published ≡ 1)
    × (after.world.counters.events_dropped ≡ 1)
    × (after.world.dispatcher ≡ new_dispatcher)
turn_row-unlabelled_example =
    turn_row-unlabelled pydantic numbers parsing name settings (refuses 1) higgs draws
      (new_runner 7) "timed out" refl (unfold features_match_higgs_schema in refl) refl refl refl

abbrev windows : Windows
windows = record { stall_timeout = 60; readiness_error_window = 30; seconds = λ n. "60" }

-- The latest report first.
abbrev reports : List (Report × ℕ)
reports = (failed "timed out" false, 12) ∷ (delivered, 9) ∷ (failed "timed out" false, 4) ∷ []

abbrev probed : Probed
probed = record {
  started = true;
  thread_alive = true;
  poll_thread_alive = true;
  stop = false;
  paused = false;
  ready = true;
  last_progress_at = 10;
  health = health_of new_health reports;
}

readiness-ready_example :
    ((probe_response (readiness windows 20 probed)).0 ≡ 200)
    ↔ (((liveness windows 20 probed).0 ≡ true) × (true ≡ true) × ¬ LatestFails 30 20 reports)
readiness-ready_example =
    readiness-ready windows 20 probed reports refl
      ((omega arith, (omega arith, tt)), ((omega arith, tt), (tt, tt)))

abbrev rates : RateSettings ℕ
rates = record {
  burst_mode = true;
  events_per_second = 20;
  burst_rate_multiplier = 5;
  burst_interval = 3;
  burst_duration = 2;
}

abbrev is_fast : ℕ → Bool
is_fast n = n == 100

effective_rate-burst_example :
    count_times (λ t. is_fast (effective_rate (λ a b. a * b) rates t)) (2 * (3 + 2)) ≡ 2 * 2
effective_rate-burst_example = effective_rate-burst (λ a b. a * b) rates is_fast refl refl refl 2

-- A start whose download breaks off, then one whose download ends.
abbrev cut_off : Response ℕ
cut_off = record { status_error = none; chunks = 1 ∷ []; broken = some (other_exception "reset") }

abbrev empty_dir : DataDir ℕ
empty_dir = record { dest = none; part = none }

ensure_dataset-IsWhole_example :
    let d = starts (cut_off ∷ []) empty_dir in
    IsWhole (1 ∷ 2 ∷ []) d
    × ((ensure_dataset archive d).0 ≡ ok tt → (ensure_dataset archive d).1.dest ≡ some (1 ∷ 2 ∷ []))
ensure_dataset-IsWhole_example =
    ensure_dataset-IsWhole (1 ∷ 2 ∷ []) (cut_off ∷ []) archive ((λ e. absurd cc), tt) (λ e. refl)

abbrev three : List ℕ
three = 7 ∷ 8 ∷ 9 ∷ []

stream_rows-cycle_example :
    let rows = stream_rows 5 (some 2) true 5 three in
    let pass = one_pass (some 2) three in
    (1 ≤ length pass
      → 5 ≤ 5
      → (length rows ≡ 5) × ((i : ℕ) → i < 5 → get_elem? rows i ≡ get_elem? pass (i % length pass)))
    × (pass ≡ [] → 1 ≤ 5 → rows ≡ [])
stream_rows-cycle_example = stream_rows-cycle (some 2) three 5 5
