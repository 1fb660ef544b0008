-- ===== src/Ingestor/Validate.antt =====
-- consumer.py, `_validate`, and config.py, `dlq_topic_for`.
use agentic_ml_engineering_l.Base.{
  String, Option, none, some, ◌==◌, if◌then◌else◌, value_error, Result, ok, raise,
}
use Prim.Native.String.{◌++◌}
use agentic_ml_engineering_l.Base.Equality.{string_eq}
use agentic_ml_engineering_l.Schemas.Values.{Json}
use agentic_ml_engineering_l.Schemas.{validate_feature, validate_label}
use agentic_ml_engineering_l.Ingestor.{
  Settings, Event, feature, label, Loaded, loaded, decode_error, failed, External,
}

-- The topic is not told in the text of the exception.
unfoldable pub dlq_topic_for : Settings → String → Result String
dlq_topic_for s topic =
    if topic == s.features_topic
    then ok s.features_dlq_topic
    else if topic == s.labels_topic
    then ok s.labels_dlq_topic
    else raise (value_error "no DLQ topic configured")

-- The pair that `_validate` returns: the event, or the reason.
pub data Validated (R D : Type 0) : Type 0 where
  parsed : Event R D → Validated R D
  rejected : String → Validated R D

module _ {B R D T : Type 0} (x : External B R D T) (s : Settings) where
  unfoldable pub model_validate : String → Json R → Option (Event R D)
  unfolding validate_feature validate_label
  model_validate topic value =
      if topic == s.features_topic
      then elim (validate_feature x.py value) [ none ↦ none | some e ↦ some (feature e) ]
      else elim (validate_label x.py value) [ none ↦ none | some e ↦ some (label e) ]

  validate_loaded : String → Loaded R → Result (Validated R D)
  validate_loaded topic (decode_error text) = ok (rejected ("invalid_json: " ++ text))
  validate_loaded topic (failed e) = raise e
  validate_loaded topic (loaded value) = elim (model_validate topic value) [
    | none ↦ ok (rejected ("schema_validation_failed: " ++ x.py.error_count value ++ " error(s)"))
    | some e ↦ ok (parsed e)
  ]

  unfoldable pub validate : String → Option B → Result (Validated R D)
  unfolding validate_loaded
  validate topic none = ok (rejected "empty_message_value")
  validate topic (some raw) = validate_loaded topic (x.json_loads raw)
