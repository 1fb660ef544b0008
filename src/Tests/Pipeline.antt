-- ===== src/Tests/Pipeline.antt =====
-- The batch pipeline on a small warehouse.
use agentic_ml_engineering_l.Base.{ℕ, ◌+◌, String, List, [], ◌∷◌, ◌≡◌, ◌==◌, ◌⊎◌, Exc, ok, raise}
use agentic_ml_engineering_l.Base.Equality.{string_eq}
use agentic_ml_engineering_l.Pipeline.{FeatureRecord, LabelRecord}
use agentic_ml_engineering_l.Pipeline.Validation.{Pandera}
use agentic_ml_engineering_l.Pipeline.Validation.Partition.{Partition}
use agentic_ml_engineering_l.Pipeline.Watermark.{epoch}
use agentic_ml_engineering_l.Pipeline.Curate.{update_curated_tables_and_advance_watermarks}
use agentic_ml_engineering_l.Pipeline.Curate.Atomic.{
  Curated, update_curated_tables_and_advance_watermarks-IsAtomic,
}
use agentic_ml_engineering_l.Tests.Warehouse.{warehouse, Db, empty, pandera, lost_commit}

abbrev pub feature : String → ℕ → FeatureRecord ℕ
feature key t = record {
  event_id = key;
  entity_id = key;
  event_timestamp = t;
  schema_version = "1.0.0";
  features = [];
}

abbrev pub label : String → LabelRecord
label key = record {
  event_id = key;
  entity_id = key;
  target = 1;
  label_timestamp = 5;
  schema_version = "1.0.0";
}

abbrev rows : List ℕ
rows = 7 ∷ 8 ∷ 9 ∷ []

abbrev refuses : Pandera (FeatureRecord ℕ)
refuses = pandera (λ r. r.entity_id == "bad")

update_curated_tables_and_advance_watermarks-IsAtomic_example :
    ((counts : ℕ × ℕ) × (d' : Db) × (update_curated_tables_and_advance_watermarks warehouse
          lost_commit
          (feature "a" 1 ∷ [])
          (label "b" ∷ [])
          "run:1"
          (epoch + 50)
          empty
        ≡ (ok counts, d'))
      × Curated warehouse (feature "a" 1 ∷ []) (label "b" ∷ []) "run:1" (epoch + 50) empty d')
    ⊎ ((e : Exc) × (update_curated_tables_and_advance_watermarks warehouse lost_commit
            (feature "a" 1 ∷ [])
            (label "b" ∷ [])
            "run:1"
            (epoch + 50)
            empty
          ≡ (raise e, empty)))
update_curated_tables_and_advance_watermarks-IsAtomic_example =
    update_curated_tables_and_advance_watermarks-IsAtomic warehouse lost_commit (feature "a" 1 ∷ [])
      (label "b" ∷ []) "run:1" (epoch + 50) empty
