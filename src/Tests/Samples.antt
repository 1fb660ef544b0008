-- ===== src/Tests/Samples.antt =====
-- Sample events and stand-ins for the libraries: a float is a number, a datetime its ISO text, the
-- bytes of a message are what `json.loads` makes of them, and the landing tables are in memory.
use agentic_ml_engineering_l.Base.{
  ℕ, String, List, [], ◌∷◌, Option, none, some, refl, unicode_decode_error,
}
use agentic_ml_engineering_l.Base.Dict.{Dict}
use agentic_ml_engineering_l.Base.Int.{ℤ}
use agentic_ml_engineering_l.Db.Memory.{in_memory}
use agentic_ml_engineering_l.Schemas.Values.{
  Json, integer, float, string, object, of_entries, Pydantic,
}
use agentic_ml_engineering_l.Schemas.Features.{higgs_feature_names}
use agentic_ml_engineering_l.Schemas.{FeatureEvent, LabelEvent, dump_feature, dump_label}
use agentic_ml_engineering_l.Ingestor.{
  Settings, Message, Row, event_id, Loaded, loaded, decode_error, failed, External, World, Env,
  WriteErrors,
}

abbrev pub as_str : Json ℕ → Option String
as_str (string s) = some s
as_str _ = none

abbrev pub as_float : Json ℕ → Option ℕ
as_float (float n) = some n
as_float _ = none

abbrev pub as_int : Json ℕ → Option ℤ
as_int (integer i) = some i
as_int _ = none

abbrev pub pydantic : Pydantic ℕ String
pydantic = record {
  to_str = as_str;
  to_float = as_float;
  to_int = as_int;
  to_datetime = as_str;
  isoformat = λ d. d;
  error_count = λ value. "1";
  to_str-string = λ s. refl;
  to_float-float = λ x. refl;
  to_int-integer = λ i. refl;
  to_datetime-isoformat = λ d. refl;
}

abbrev pub zeros : List String → Dict String ℕ
zeros [] = []
zeros (k ∷ ks) = (k, 0) ∷ zeros ks

abbrev pub some_features : FeatureEvent ℕ String
some_features = record {
  event_id = "feat-higgs-000000007";
  entity_id = "higgs-000000007";
  event_timestamp = "2026-07-01T00:00:00Z";
  schema_version = "1.0.0";
  source = "source_simulator";
  features = zeros higgs_feature_names;
  trace_id = "t";
}

abbrev pub some_label : LabelEvent String
some_label = record {
  event_id = "label-higgs-000000007";
  entity_id = "higgs-000000007";
  target = 1;
  label_timestamp = "2026-07-01T00:00:10Z";
  schema_version = "1.0.0";
}

abbrev pub settings : Settings
settings = record {
  features_topic = "higgs.features.v1";
  labels_topic = "higgs.labels.v1";
  features_dlq_topic = "higgs.features.dlq";
  labels_dlq_topic = "higgs.labels.dlq";
  batch_size = 500;
  batch_timeout = 2000;
  max_retries = 5;
  stall_timeout = 120000;
  retry_backoff_base = 500;
}

abbrev pub Landing : Type 0
Landing = List (Row ℕ String)

abbrev pub libraries : External (Loaded ℕ) ℕ String Landing
libraries = record {
  py = pydantic;
  json_loads = λ raw. raw;
  b64encode = λ raw. "Ynl0ZXM=";
  empty = decode_error "";
  landing = in_memory (λ (r : Row ℕ String). event_id r.event);
}

abbrev pub message : String → ℕ → Loaded ℕ → Message (Loaded ℕ)
message topic offset raw = record {
  topic = some topic;
  partition = some 0;
  offset = some offset;
  value = some raw;
}

abbrev pub feature_message : Message (Loaded ℕ)
unfolding dump_feature
feature_message =
    message "higgs.features.v1" 41
      (loaded (object (of_entries (dump_feature pydantic some_features))))

abbrev pub label_message : Message (Loaded ℕ)
unfolding dump_label
label_message =
    message "higgs.labels.v1" 8 (loaded (object (of_entries (dump_label pydantic some_label))))

abbrev pub garbled_message : Message (Loaded ℕ)
garbled_message = message "higgs.features.v1" 42 (decode_error "Expecting value")

-- Bytes that are no UTF-8.
abbrev pub poison_message : Message (Loaded ℕ)
poison_message = message "higgs.features.v1" 43 (failed (unicode_decode_error "invalid start byte"))

abbrev pub empty_world : World Landing
empty_world = record {
  tables = record { features = []; labels = [] };
  counters = record {
    persisted = 0;
    duplicate_skipped = 0;
    dead_lettered = 0;
    db_write_failures = 0;
    offset_commits = 0;
    offset_commit_failures = 0;
  };
  dlq = [];
  reports = [];
  commits = [];
  commit_failures = 0;
  last_commit_error = none;
}

abbrev pub no_errors : WriteErrors
no_errors = record { features_insert = none; labels_insert = none; commit = none }

-- Nothing fails.
abbrev pub calm : Env
calm = record {
  produce_error = λ letters letter. none;
  delivery_error = λ letters letter. none;
  write_errors = λ attempt. no_errors;
  commit_error = none;
  now = 0;
}
