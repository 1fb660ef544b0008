-- ===== src/Simulator/Runner/Events.antt =====
-- simulator.py, `_publish_feature`, `_schedule_label` and the closure that it schedules.
use Prim.Native.String.{◌++◌}
use agentic_ml_engineering_l.Base.{
  ℕ, String, false, Option, none, some, List, [], ◌∷◌, if◌then◌else◌, Result, ok, raise,
  value_error, ltb, not, ◌||◌,
}
use agentic_ml_engineering_l.Base.Dict.{Dict}
use agentic_ml_engineering_l.Base.Int.{ℤ}
use agentic_ml_engineering_l.Schemas.Values.{Pydantic}
use agentic_ml_engineering_l.Schemas.Features.{features_match_higgs_schema}
use agentic_ml_engineering_l.Schemas.{
  FeatureEvent, LabelEvent, feature_schema_version, label_schema_version, zero_or_one, dump_feature,
  dump_label,
}
use agentic_ml_engineering_l.Simulator.Malformed.{corrupt_feature_payload, corrupt_label_payload}
use agentic_ml_engineering_l.Simulator.DelayQueue.{Entry, schedule, turn}
use agentic_ml_engineering_l.Simulator.Runner.{
  feature, label, Sent, Settings, LabelJob, World, Kafka, send_with_duplicate, on_publish_error,
  FeatureDraw, LabelDraw, Float,
}

-- The draws for one row, and what the process reads: uuid4().hex, `_now()` for each event, and the clock.
pub record Draws (R D : Type 0) : Type 0 where
  pub feature_draw : FeatureDraw R
  pub label_draw : LabelDraw R
  pub trace_id : String
  pub feature_now : D
  pub label_now : D
  pub monotonic : ℕ

unfoldable pub label_message : {R : Type 0} → Settings R → LabelJob R → Sent R
label_message s job = record {
  topic = s.labels_topic;
  key = job.entity_id;
  payload = job.payload;
  event_type = label;
  malformed = job.malformed;
  duplicate = false;
}

module _ {R D : Type 0} (py : Pydantic R D) (float : Float R) (s : Settings R) (kafka : Kafka) where
  unfoldable pub feature_event : String → Dict String R → Draws R D → FeatureEvent R D
  feature_event entity_id features draws = record {
    event_id = "feat-" ++ entity_id;
    entity_id = entity_id;
    event_timestamp = draws.feature_now;
    schema_version = feature_schema_version;
    source = s.service_name;
    features = features;
    trace_id = draws.trace_id;
  }

  unfoldable pub feature_message : String → Dict String R → Draws R D → Sent R
  unfolding feature_event dump_feature corrupt_feature_payload
  feature_message entity_id features draws =
      let payload = dump_feature py (feature_event entity_id features draws) in
      let d = draws.feature_draw in
      let malformed = float.lt d.invalid s.invalid_event_rate in
      record {
        topic = s.features_topic;
        key = entity_id;
        payload =
            if malformed
            then corrupt_feature_payload float.one d.strategy d.field payload
            else payload;
        event_type = feature;
        malformed = malformed;
        duplicate = false;
      }

  -- The model refuses features that are not the 28 names.
  unfoldable pub publish_feature :
      String → Dict String R → Draws R D → World R → Result (Unit {0}) × World R
  unfolding feature_message send_with_duplicate
  publish_feature entity_id features draws w =
      if features_match_higgs_schema features
      then send_with_duplicate kafka (float.lt draws.feature_draw.duplicate s.duplicate_rate)
          (feature_message entity_id features draws) w
      else (raise (value_error "features"), w)

  unfoldable pub label_event : String → ℕ → Draws R D → LabelEvent D
  label_event entity_id target draws = record {
    event_id = "label-" ++ entity_id;
    entity_id = entity_id;
    target = target;
    label_timestamp = draws.label_now;
    schema_version = label_schema_version;
  }

  unfoldable pub label_job : String → ℕ → Draws R D → LabelJob R
  unfolding label_event dump_label corrupt_label_payload
  label_job entity_id target draws =
      let payload = dump_label py (label_event entity_id target draws) in
      let d = draws.label_draw in
      let malformed = float.lt d.invalid s.invalid_event_rate in
      record {
        entity_id = entity_id;
        payload =
            if malformed then corrupt_label_payload d.strategy d.field d.bad payload else payload;
        malformed = malformed;
        duplicate = float.lt d.duplicate s.duplicate_rate;
      }

  unfoldable pub scheduled_label :
      String → Option ℕ → Draws R D → World R → Result (Unit {0}) × World R
  unfolding label_job schedule
  scheduled_label entity_id none draws w = (raise (value_error "target"), w)
  scheduled_label entity_id (some target) draws w = (
    ok tt,
    record w {
      dispatcher =
          schedule s.label_delay (label_job entity_id target draws) draws.monotonic w.dispatcher;
    },
  )

  -- The model refuses a target that is not 0 or 1.
  unfoldable pub schedule_label : String → ℤ → Draws R D → World R → Result (Unit {0}) × World R
  unfolding scheduled_label zero_or_one
  schedule_label entity_id target draws w = scheduled_label entity_id (zero_or_one target) draws w

  unfoldable pub recorded : Result (Unit {0}) × World R → World R
  unfolding on_publish_error
  recorded (ok _, w) = w
  recorded (raise e, w) = (on_publish_error kafka e w).1

  -- `dispatch`
  unfoldable pub dispatch : LabelJob R → World R → World R
  unfolding recorded send_with_duplicate label_message
  dispatch job w = recorded (send_with_duplicate kafka job.duplicate (label_message s job) w)

  -- One turn of the dispatcher's thread; `dispatch` raises nothing.
  unfoldable pub turned : ℕ → List (Entry (LabelJob R)) → World R → World R
  unfolding dispatch turn
  turned now [] w = w
  turned now (e ∷ heap) w =
      if ltb now e.run_at
      then w
      else dispatch e.callback (record w { dispatcher = turn (λ job. none) now w.dispatcher })

  unfoldable pub dispatcher_turn : ℕ → World R → World R
  unfolding turned
  dispatcher_turn now w =
      let d = w.dispatcher in if d.stop || not d.alive then w else turned now d.heap w
