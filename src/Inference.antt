-- ===== src/Inference.antt =====
-- apps/inference_api/src/inference_api: the model that serves, online features, and a prediction. This
-- file: the data. M: a loaded estimator; R: Python's float. A time is a number of microseconds.
pub mod Model
pub mod Features
pub mod Service
pub mod Api
pub mod Server
use agentic_ml_engineering_l.Base.{ℕ, String, Option}
use agentic_ml_engineering_l.Base.Dict.{Dict}

pub record ModelMetadata : Type 0 where
  pub name : String
  pub alias : String
  pub version : String
  pub run_id : Option String
  pub git_sha : Option String
  pub dataset_fingerprint : Option String
  pub feature_view : Option String
  pub test_accuracy : Option String
  pub loaded_at : ℕ

pub record LoadedModel (M : Type 0) : Type 0 where
  pub model : M
  pub metadata : ModelMetadata

-- The model's `ml.predictions` row; `created_at` is the server's.
pub record Prediction (R : Type 0) : Type 0 where
  pub prediction_id : String
  pub entity_id : Option String
  pub source : String
  pub model_name : String
  pub model_version : String
  pub model_run_id : Option String
  pub features : Dict String R
  pub prediction : ℕ
  pub probability : R
  pub latency_ms : ℕ
  pub trace_id : String

pub record PredictionEvent (R : Type 0) : Type 0 where
  pub prediction_id : String
  pub entity_id : Option String
  pub source : String
  pub model_name : String
  pub model_version : String
  pub model_run_id : Option String
  pub prediction : ℕ
  pub probability : R
  pub predicted_at : ℕ
  pub trace_id : String
