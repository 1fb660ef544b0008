-- ===== src/Simulator/Malformed.antt =====
-- services/source_simulator/src/source_simulator/malformed.py: deliberate corruption of a payload.
-- What `rng.choice` returns is an argument. The JSON object is the payload's dict.
pub mod Rejected
use agentic_ml_engineering_l.Base.{
  ℕ, String, Bool, true, false, not, ◌/◌, ◌-◌, ◌≤◌, ◌≡◌, refl, Option, none, some, List, [], ◌∷◌,
  ◌++◌, max, length, take, if◌then◌else◌,
}
use agentic_ml_engineering_l.Base.Dict.{Dict, get, put, pop}
use agentic_ml_engineering_l.Base.Equality.{string_eq}
use agentic_ml_engineering_l.Base.Int.{ℤ, pos, negsuc}
use agentic_ml_engineering_l.Schemas.Values.{
  Json, null, integer, float, string, object, entries, of_entries,
}
use agentic_ml_engineering_l.Schemas.Features.{member, keys}

pub data FeatureStrategy : Type 0 where
  drop_field wrong_type extra_field truncated_features : FeatureStrategy

pub data LabelStrategy : Type 0 where
  drop_field target_out_of_range wrong_type : LabelStrategy

-- What `rng.choice(["entity_id", "event_timestamp", "features"])` may return.
pub data DroppableFeature : Type 0 where
  entity_id event_timestamp features : DroppableFeature

pub data DroppableLabel : Type 0 where
  entity_id target label_timestamp : DroppableLabel

-- rng.choice([2, -1, 99])
pub data BadTarget : Type 0 where
  two minus_one ninety_nine : BadTarget

abbrev pub feature_strategy_name : FeatureStrategy → String
feature_strategy_name FeatureStrategy.drop_field = "drop_field"
feature_strategy_name FeatureStrategy.wrong_type = "wrong_type"
feature_strategy_name FeatureStrategy.extra_field = "extra_field"
feature_strategy_name FeatureStrategy.truncated_features = "truncated_features"

abbrev pub label_strategy_name : LabelStrategy → String
label_strategy_name LabelStrategy.drop_field = "drop_field"
label_strategy_name LabelStrategy.target_out_of_range = "target_out_of_range"
label_strategy_name LabelStrategy.wrong_type = "wrong_type"

abbrev pub droppable_feature_name : DroppableFeature → String
droppable_feature_name DroppableFeature.entity_id = "entity_id"
droppable_feature_name DroppableFeature.event_timestamp = "event_timestamp"
droppable_feature_name DroppableFeature.features = "features"

abbrev pub droppable_label_name : DroppableLabel → String
droppable_label_name DroppableLabel.entity_id = "entity_id"
droppable_label_name DroppableLabel.target = "target"
droppable_label_name DroppableLabel.label_timestamp = "label_timestamp"

abbrev pub bad_target : BadTarget → ℤ
bad_target two = pos 2
bad_target minus_one = negsuc 0
bad_target ninety_nine = pos 99

module _ {R : Type 0} where
  -- {k: v for k, v in d.items() if k not in drop}
  unfoldable pub without : List String → Dict String (Json R) → Dict String (Json R)
  unfolding member
  without drop [] = []
  without drop ((k, v) ∷ d) =
      let rest = without drop d in if member k drop then rest else (k, v) ∷ rest

  unfoldable pub truncate : Dict String (Json R) → Dict String (Json R)
  unfolding without
  truncate d = without (take (max 1 (length (keys d) / 2)) (keys d)) d

  -- The strategies that work on payload["features"] do nothing unless it is a dict.
  unfoldable pub on_features :
      (Dict String (Json R) → Dict String (Json R)) → Dict String (Json R) → Dict String (Json R)
  unfolding get put
  on_features f payload = elim (get "features" payload) [
    | none ↦ payload
    | some (object fs) ↦ put "features" (object (of_entries (f (entries fs)))) payload
    | some _ ↦ payload
  ]

  corrupt_features :
      R → FeatureStrategy → DroppableFeature → Dict String (Json R) → Dict String (Json R)
  unfolding on_features truncate put pop
  corrupt_features one FeatureStrategy.drop_field field payload =
      pop (droppable_feature_name field) payload
  corrupt_features one FeatureStrategy.wrong_type field payload =
      put "features" (string "not-a-dict") payload
  corrupt_features one FeatureStrategy.extra_field field payload =
      on_features (put "unexpected_field" (float one)) payload
  corrupt_features one FeatureStrategy.truncated_features field payload =
      on_features truncate payload

  -- `one` is the float 1.0.
  unfoldable pub corrupt_feature_payload :
      R → FeatureStrategy → DroppableFeature → Dict String (Json R) → Dict String (Json R)
  unfolding corrupt_features
  corrupt_feature_payload one strategy field payload =
      put "_malformed_strategy" (string (feature_strategy_name strategy))
        (corrupt_features one strategy field payload)

  corrupt_label :
      LabelStrategy → DroppableLabel → BadTarget → Dict String (Json R) → Dict String (Json R)
  unfolding put pop
  corrupt_label LabelStrategy.drop_field field bad payload =
      pop (droppable_label_name field) payload
  corrupt_label LabelStrategy.target_out_of_range field bad payload =
      put "target" (integer (bad_target bad)) payload
  corrupt_label LabelStrategy.wrong_type field bad payload = put "target" (string "signal") payload

  unfoldable pub corrupt_label_payload :
      LabelStrategy → DroppableLabel → BadTarget → Dict String (Json R) → Dict String (Json R)
  unfolding corrupt_label
  corrupt_label_payload strategy field bad payload =
      put "_malformed_strategy" (string (label_strategy_name strategy))
        (corrupt_label strategy field bad payload)
