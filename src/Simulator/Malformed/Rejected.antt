-- ===== src/Simulator/Malformed/Rejected.antt =====
-- malformed.py against events.py: no corrupted payload is a valid event.
use agentic_ml_engineering_l.Base.{String, false, ◌≡◌, refl, none, List, [], ◌∷◌, arith}
use agentic_ml_engineering_l.Base.Dict.{Dict, put}
use agentic_ml_engineering_l.Base.Equality.{string_eq}
use agentic_ml_engineering_l.Schemas.Values.{
  Json, string, object, of_entries, entries-of_entries, Pydantic,
}
use agentic_ml_engineering_l.Schemas.Features.{member}
use agentic_ml_engineering_l.Schemas.{
  validate_feature, validate_label, only, feature_fields, label_fields,
}
use agentic_ml_engineering_l.Simulator.Malformed.{
  FeatureStrategy, LabelStrategy, DroppableFeature, DroppableLabel, BadTarget,
  corrupt_feature_payload, corrupt_label_payload, corrupt_features, corrupt_label,
  feature_strategy_name, label_strategy_name,
}

-- A key outside the list is refused, wherever it stands.
only-put_foreign :
    {V : Type 0} (ks : List String) (k : String) (v : V) (d : Dict String V)
    → member k ks ≡ false
    → only ks (put k v d) ≡ false
unfolding only put
only-put_foreign ks k v [] h = rw h
only-put_foreign ks k v ((j, w) ∷ d) h =
    ground (arith, string_eq.same_iff j k, only-put_foreign ks k v d h)

module _ {R : Type 0} where
  only-corrupt_feature_payload :
      (one : R) (strategy : FeatureStrategy) (field : DroppableFeature)
      (payload : Dict String (Json R))
      → only feature_fields (corrupt_feature_payload one strategy field payload) ≡ false
  unfolding corrupt_feature_payload member
  only-corrupt_feature_payload one strategy field payload =
      only-put_foreign feature_fields "_malformed_strategy"
        (string (feature_strategy_name strategy)) (corrupt_features one strategy field payload) refl

  only-corrupt_label_payload :
      (strategy : LabelStrategy) (field : DroppableLabel) (bad : BadTarget)
      (payload : Dict String (Json R))
      → only label_fields (corrupt_label_payload strategy field bad payload) ≡ false
  unfolding corrupt_label_payload member
  only-corrupt_label_payload strategy field bad payload =
      only-put_foreign label_fields "_malformed_strategy" (string (label_strategy_name strategy))
        (corrupt_label strategy field bad payload) refl

module _ {R D : Type 0} (py : Pydantic R D) where
  -- Whatever the payload and the choices of the generator, FeatureEvent refuses the payload that
  -- corrupt_feature_payload returns.
  pub validate_feature-corrupt_feature_payload :
      (one : R) (strategy : FeatureStrategy) (field : DroppableFeature)
      (payload : Dict String (Json R))
      → validate_feature py
          (object (of_entries (corrupt_feature_payload one strategy field payload)))
        ≡ none
  unfolding validate_feature
  validate_feature-corrupt_feature_payload one strategy field payload =
      rw (entries-of_entries, only-corrupt_feature_payload one strategy field payload)

  -- Whatever the payload and the choices of the generator, LabelEvent refuses the payload that
  -- corrupt_label_payload returns.
  pub validate_label-corrupt_label_payload :
      (strategy : LabelStrategy) (field : DroppableLabel) (bad : BadTarget)
      (payload : Dict String (Json R))
      → validate_label py (object (of_entries (corrupt_label_payload strategy field bad payload)))
        ≡ none
  unfolding validate_label
  validate_label-corrupt_label_payload strategy field bad payload =
      rw (entries-of_entries, only-corrupt_label_payload strategy field bad payload)
