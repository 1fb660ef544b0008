-- ===== src/Inference/Service.antt =====
-- service.py and store.py: a prediction, its row and its event.
pub mod Answered
pub mod Accounts
use agentic_ml_engineering_l.Base.{
  ℕ, suc, String, Bool, true, false, Option, none, some, List, [], ◌∷◌, ◌++◌, Exc, Result, ok,
  raise, key_error, runtime_error, if◌then◌else◌,
}
use agentic_ml_engineering_l.Base.Exception.{text}
use agentic_ml_engineering_l.Base.Dict.{Dict}
use agentic_ml_engineering_l.Db.Session.{session_scope}
use agentic_ml_engineering_l.Schemas.Features.{higgs_feature_names}
use agentic_ml_engineering_l.Inference.{LoadedModel, ModelMetadata, Prediction, PredictionEvent}
use agentic_ml_engineering_l.Inference.Features.{Answer, get_features, columns_of}

-- The estimator's `predict_proba(frame)[0, 1]`, the conversion to float32, and `proba >= 0.5`.
pub record Estimator (M R : Type 0) : Type 0 where
  pub predict_proba : M → List R → Result R
  pub float32 : R → R
  pub at_least_half : R → Bool

-- Which of the service's clients are there.
pub record Clients : Type 0 where
  pub features : Bool
  pub store : Bool
  pub publisher : Bool

-- What one request meets outside: the feature server's answer, the fresh id, the clock, and what the
-- commit of the row, and the building or the publishing of the event, raise.
pub record Env (R : Type 0) : Type 0 where
  pub answer : Answer R
  pub prediction_id : String
  pub latency_ms : ℕ
  pub predicted_at : ℕ
  pub now : ℕ
  pub commit_error : Option Exc
  pub publish_error : Option Exc

-- The table, the events that were handed to Kafka, the fields of the store, and the counters;
-- `outcomes` has the labels of each increment of PREDICTIONS.
pub record World (R : Type 0) : Type 0 where
  pub rows : List (Prediction R)
  pub events : List (PredictionEvent R)
  pub write_failures : ℕ
  pub last_error : Option String
  pub last_error_at : Option ℕ
  pub persist_failures : ℕ
  pub publish_failures : ℕ
  pub outcomes : List (String × String)

-- `model` is meta.as_dict().
pub record PredictionResult (R : Type 0) : Type 0 where
  pub prediction_id : String
  pub entity_id : Option String
  pub source : String
  pub prediction : ℕ
  pub probability : R
  pub model : ModelMetadata
  pub latency_ms : ℕ
  pub trace_id : String
  pub persisted : Bool

pub data Outcome (R : Type 0) : Type 0 where
  answered : PredictionResult R → Outcome R
  model_not_loaded : Outcome R
  features_not_found : String → Outcome R
  failed : Exc → Outcome R

module _ {R : Type 0} where
  abbrev pub count : String → String → World R → World R
  count source outcome w = record w { outcomes = (source, outcome) ∷ w.outcomes }

  -- with session_scope() as session: session.add(row)
  add : Prediction R → Option Exc → World R → Result (Unit {0}) × List (Prediction R) × Unit {0}
  unfolding session_scope
  add row commit_error w =
      session_scope (λ rows m. (ok tt, rows ++ row ∷ [], m)) commit_error w.rows tt

  saved : ℕ → World R → Result (Unit {0}) × List (Prediction R) × Unit {0} → Bool × World R
  saved now w (ok _, rows, _) = (true, record w { rows = rows })
  saved now w (raise exc, rows, _) = (
    false,
    record w {
      rows = rows;
      write_failures = suc w.write_failures;
      last_error = some (text exc);
      last_error_at = some now;
    },
  )

  -- PredictionStore.save
  unfoldable pub save : Prediction R → Option Exc → ℕ → World R → Bool × World R
  unfolding add saved
  save row commit_error now w = saved now w (add row commit_error w)

  counted : Bool × World R → Bool × World R
  counted (true, w) = (true, w)
  counted (false, w) = (false, record w { persist_failures = suc w.persist_failures })

  unfoldable pub persist : Bool → Prediction R → Env R → World R → Bool × World R
  unfolding counted save
  persist false row env w = (false, w)
  persist true row env w = counted (save row env.commit_error env.now w)

  hand_over : Option Exc → PredictionEvent R → World R → World R
  hand_over none event w = record w { events = w.events ++ event ∷ [] }
  hand_over (some e) event w = record w { publish_failures = suc w.publish_failures }

  unfoldable pub publish : Bool → PredictionEvent R → Env R → World R → World R
  unfolding hand_over
  publish false event env w = w
  publish true event env w = hand_over env.publish_error event w

module _ {M R : Type 0} (lib : Estimator M R) (clients : Clients) where
  -- int(proba >= 0.5)
  abbrev pub label_of : R → ℕ
  label_of proba = if lib.at_least_half proba then 1 else 0

  module _ (env : Env R) (features : Dict String R) (entity_id : Option String)
      (source trace_id : String) (meta : ModelMetadata) (proba : R) where
    abbrev pub row : Prediction R
    row = record {
      prediction_id = env.prediction_id;
      entity_id = entity_id;
      source = source;
      model_name = meta.name;
      model_version = meta.version;
      model_run_id = meta.run_id;
      features = features;
      prediction = label_of proba;
      probability = proba;
      latency_ms = env.latency_ms;
      trace_id = trace_id;
    }

    abbrev pub event : PredictionEvent R
    event = record {
      prediction_id = env.prediction_id;
      entity_id = entity_id;
      source = source;
      model_name = meta.name;
      model_version = meta.version;
      model_run_id = meta.run_id;
      prediction = label_of proba;
      probability = proba;
      predicted_at = env.predicted_at;
      trace_id = trace_id;
    }

    abbrev pub result : Bool → PredictionResult R
    result persisted = record {
      prediction_id = env.prediction_id;
      entity_id = entity_id;
      source = source;
      prediction = label_of proba;
      probability = proba;
      model = meta;
      latency_ms = env.latency_ms;
      trace_id = trace_id;
      persisted = persisted;
    }

    recorded : Bool × World R → Outcome R × World R
    unfolding publish
    recorded (persisted, w) =
        (answered (result persisted), count source "ok" (publish clients.publisher event env w))

  floats : List R → List R
  floats [] = []
  floats (v ∷ vs) = lib.float32 v ∷ floats vs

  -- predict_proba on the row of the features in the order of training.
  score : M → Option (List R) → Result R
  unfolding floats
  score model none = raise (key_error "features")
  score model (some vs) = lib.predict_proba model (floats vs)

  module _ (env : Env R) (features : Dict String R) (entity_id : Option String)
      (source trace_id : String) where
    unfoldable pub scored : ModelMetadata → Result R → World R → Outcome R × World R
    unfolding persist recorded
    scored meta (raise e) w = (failed e, w)
    scored meta (ok proba) w =
        recorded env features entity_id source trace_id meta proba
          (persist clients.store (row env features entity_id source trace_id meta proba) env w)

    unfoldable pub predict : Option (LoadedModel M) → World R → Outcome R × World R
    unfolding scored score columns_of
    predict none w = (model_not_loaded, count source "error" w)
    predict (some loaded) w =
        scored loaded.metadata (score loaded.model (columns_of higgs_feature_names features)) w

  unfoldable pub predict_raw :
      Env R
      → Dict String R
      → Option String
      → String
      → Option (LoadedModel M)
      → World R
      → Outcome R × World R
  unfolding predict
  predict_raw env features entity_id trace_id current w =
      predict env features entity_id "raw" trace_id current w

  unfoldable pub fetched :
      Env R
      → String
      → String
      → Option (LoadedModel M)
      → World R
      → Result (Option (Dict String R))
      → Outcome R × World R
  unfolding predict
  fetched env entity_id trace_id current w (raise e) = (failed e, w)
  fetched env entity_id trace_id current w (ok none) =
      (features_not_found entity_id, count "entity" "no_features" w)
  fetched env entity_id trace_id current w (ok (some feats)) =
      predict env feats (some entity_id) "entity" trace_id current w

  unfoldable pub predict_entity :
      Env R → String → String → Option (LoadedModel M) → World R → Outcome R × World R
  unfolding fetched get_features
  predict_entity env entity_id trace_id current w =
      if clients.features
      then fetched env entity_id trace_id current w (get_features env.answer)
      else (failed (runtime_error "no feature client configured"), w)
