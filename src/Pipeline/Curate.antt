-- ===== src/Pipeline/Curate.antt =====
-- higgs_pipeline_tasks.py, `update_curated_tables_and_advance_watermarks`: the curated upserts and
-- both watermarks in one transaction.
pub mod Atomic
use agentic_ml_engineering_l.Base.{ℕ, String, List, [], ◌∷◌, map, ◌≡◌, refl, Exc, Result, ok, raise}
use agentic_ml_engineering_l.Base.Dict.{Dict, get}
use agentic_ml_engineering_l.Base.Equality.{string_eq}
use agentic_ml_engineering_l.Db.Block.{Block, Faults, return, execute, ◌>>=◌, transact}
use agentic_ml_engineering_l.Db.Batches.{Part, insert_batches}
use agentic_ml_engineering_l.Db.Models.{CuratedHiggsFeature, CuratedHiggsLabel}
use agentic_ml_engineering_l.Schemas.Features.{higgs_feature_names}
use agentic_ml_engineering_l.Pipeline.{Libraries, Database, FeatureRecord, LabelRecord}
use agentic_ml_engineering_l.Pipeline.Chunks.{chunked, upsert_batch_size}
use agentic_ml_engineering_l.Pipeline.Extract.{columns, features_pipeline, labels_pipeline}
use agentic_ml_engineering_l.Pipeline.Watermark.{advance_watermark}

module _ {LF LL CF CL TR W : Type 0} where
  abbrev pub curated_features_part : Part (Database LF LL CF CL TR W) CF
  curated_features_part = record {
    read = λ d. d.curated_features;
    write = λ t d. record d { curated_features = t };
    read-write = λ t d. refl;
    write-write = λ t u d. refl;
    write-read = λ d. refl;
  }

  abbrev pub curated_labels_part : Part (Database LF LL CF CL TR W) CL
  curated_labels_part = record {
    read = λ d. d.curated_labels;
    write = λ t d. record d { curated_labels = t };
    read-write = λ t d. refl;
    write-write = λ t u d. refl;
    write-read = λ d. refl;
  }

unfoldable pub curated_label : String → LabelRecord → CuratedHiggsLabel
curated_label run_id r = record {
  event_id = r.event_id;
  entity_id = r.entity_id;
  target = r.target;
  label_timestamp = r.label_timestamp;
  schema_version = r.schema_version;
  source_run_id = run_id;
}

-- source_run_id gives the run that curates the row.
module _ {R LF LL CF CL TR W : Type 0} (x : Libraries R LF LL CF CL TR W) where
  unfoldable pub curated_feature : String → FeatureRecord R → CuratedHiggsFeature R
  unfolding columns
  curated_feature run_id r = record {
    event_id = r.event_id;
    entity_id = r.entity_id;
    event_timestamp = r.event_timestamp;
    schema_version = r.schema_version;
    features = columns x.nan higgs_feature_names r.features;
    source_run_id = run_id;
  }

module _ {R LF LL CF CL TR W : Type 0} (x : Libraries R LF LL CF CL TR W) (faults : Faults) where
  unfoldable pub update_curated_features :
      List (FeatureRecord R) → String → Block (Database LF LL CF CL TR W) ℕ
  unfolding return insert_batches chunked curated_feature
  update_curated_features [] run_id = return 0
  update_curated_features (r ∷ df) run_id =
      insert_batches x.curated_features.upsert curated_features_part faults
        (chunked (map (curated_feature x run_id) (r ∷ df)) upsert_batch_size) 0

  unfoldable pub update_curated_labels :
      List LabelRecord → String → Block (Database LF LL CF CL TR W) ℕ
  unfolding return insert_batches chunked curated_label
  update_curated_labels [] run_id = return 0
  update_curated_labels (r ∷ df) run_id =
      insert_batches x.curated_labels.upsert curated_labels_part faults
        (chunked (map (curated_label run_id) (r ∷ df)) upsert_batch_size) 0

  advance : String → ℕ → Database LF LL CF CL TR W → Unit {0} × Database LF LL CF CL TR W
  unfolding advance_watermark
  advance pipeline_name new_value d = (
    tt,
    record d { watermarks = advance_watermark x.watermarks pipeline_name new_value d.watermarks },
  )

  -- advance_watermark(session, pipeline_name, new_value)
  unfoldable pub advance_in : String → ℕ → Block (Database LF LL CF CL TR W) (Unit {0})
  unfolding execute advance
  advance_in pipeline_name new_value = execute faults (advance pipeline_name new_value)

  curation :
      List (FeatureRecord R)
      → List LabelRecord
      → String
      → ℕ
      → Block (Database LF LL CF CL TR W) (ℕ × ℕ)
  unfolding update_curated_features update_curated_labels advance_in return
  curation features_df labels_df run_id upper_bound = do
    features_upserted ← update_curated_features features_df run_id
    labels_upserted ← update_curated_labels labels_df run_id
    _ ← advance_in features_pipeline upper_bound
    _ ← advance_in labels_pipeline upper_bound
    return (features_upserted, labels_upserted)

  unfoldable pub update_curated_tables_and_advance_watermarks :
      List (FeatureRecord R)
      → List LabelRecord
      → String
      → ℕ
      → Database LF LL CF CL TR W
      → Result (ℕ × ℕ) × Database LF LL CF CL TR W
  unfolding curation transact
  update_curated_tables_and_advance_watermarks features_df labels_df run_id upper_bound =
      transact faults (curation features_df labels_df run_id upper_bound)
