-- ===== src/Tests/Schemas.antt =====
-- The malformed payloads on sample events.
use agentic_ml_engineering_l.Base.{◌≡◌, none}
use agentic_ml_engineering_l.Schemas.Values.{object, of_entries}
use agentic_ml_engineering_l.Schemas.{validate_feature, dump_feature}
use agentic_ml_engineering_l.Simulator.Malformed.{
  FeatureStrategy, DroppableFeature, corrupt_feature_payload,
}
use agentic_ml_engineering_l.Simulator.Malformed.Rejected.{validate_feature-corrupt_feature_payload}
use agentic_ml_engineering_l.Tests.Samples.{pydantic, some_features}

validate_feature-corrupt_feature_payload_example :
    validate_feature pydantic (
      object (
        of_entries (
          corrupt_feature_payload 1 FeatureStrategy.truncated_features DroppableFeature.features
            (dump_feature pydantic some_features))))
    ≡ none
validate_feature-corrupt_feature_payload_example =
    validate_feature-corrupt_feature_payload pydantic 1 FeatureStrategy.truncated_features
      DroppableFeature.features (dump_feature pydantic some_features)
