-- ===== src/Tests/RunRecord.antt =====
-- A run that fails and is then repeated with success.
use agentic_ml_engineering_l.Base.{none, some, [], ◌≡◌}
use agentic_ml_engineering_l.Base.Dict.{get}
use agentic_ml_engineering_l.Base.Equality.{string_eq}
use agentic_ml_engineering_l.Pipeline.RunRecord.{
  Row, text, Failure, Summary, error_message, on_failure, emit_pipeline_metadata,
  emit_pipeline_metadata-on_failure,
}

abbrev failure : Failure
failure = record {
  dag_id = "higgs_pipeline";
  task_id = "validate_task";
  exception = some "too many invalid rows";
  started_at = 1;
  finished_at = 2;
}

abbrev summary : Summary
summary = record {
  dag_id = "higgs_pipeline";
  features_watermark = 0;
  labels_watermark = 0;
  upper_bound = 9;
  features_count = 3;
  labels_count = 2;
  invalid_features_count = 0;
  invalid_labels_count = 0;
  curated_features_upserted = 3;
  curated_labels_upserted = 2;
  training_records_new = 2;
  bronze_features_key = "bronze/features";
  bronze_labels_key = "bronze/labels";
  silver_features_key = "silver/features";
  silver_labels_key = "silver/labels";
  gold_training_key = none;
  validation_report_key = "validation";
  started_at = 5;
  finished_at = 6;
}

emit_pipeline_metadata-on_failure_example :
    (row : Row) × (get "run"
        (emit_pipeline_metadata "run" summary (on_failure (λ n t. t) "run" failure []))
      ≡ some row)
    × (get "status" row ≡ some (text "success"))
    × (get "error_message" row ≡ some (error_message (λ n t. t) failure))
emit_pipeline_metadata-on_failure_example =
    emit_pipeline_metadata-on_failure (λ n t. t) "run" failure summary []
