-- ===== src/Tests/Gold.antt =====
-- The gold dataset, the feature store and its backfill on a small warehouse.
use agentic_ml_engineering_l.Base.{
  ℕ, zero, suc, String, Option, none, some, List, [], ◌∷◌, length, ◌≡◌, refl, Exc, ok, raise,
  other_exception, ◌≤◌, arith,
}
use agentic_ml_engineering_l.Base.Equality.{string_eq}
use agentic_ml_engineering_l.Base.Dict.{put}
use agentic_ml_engineering_l.Db.Models.{
  CuratedHiggsFeature, CuratedHiggsLabel, CuratedTrainingRecord,
}
use agentic_ml_engineering_l.Pipeline.Gold.{
  Gold, GoldFaults, build_training_dataset, upsert_training_records, build_training_dataset_task,
}
use agentic_ml_engineering_l.Pipeline.Gold.Joined.{IsJoined, build_training_dataset_task-IsJoined}
use agentic_ml_engineering_l.Pipeline.Gold.Retry.{build_training_dataset_task-lost}
use agentic_ml_engineering_l.Pipeline.FeatureStore.{update_feature_store}
use agentic_ml_engineering_l.Pipeline.FeatureStore.Covers.{update_feature_store-Covers}
use agentic_ml_engineering_l.Pipeline.Windows.{Covered}
use agentic_ml_engineering_l.Materialize.{
  Source, Registry, resume_point, latest, materialize_chunked,
}
use agentic_ml_engineering_l.Materialize.Gapless.{
  IsGapless, Complete, materialize_chunked-IsGapless,
}
use agentic_ml_engineering_l.Tests.Warehouse.{warehouse, Db, empty, ordering, calm_block}

abbrev curated : String → ℕ → CuratedHiggsFeature ℕ
curated key t = record {
  event_id = key;
  entity_id = "higgs-7";
  event_timestamp = t;
  schema_version = "1.0.0";
  features = [];
  source_run_id = "run:1";
}

abbrev curated_label : CuratedHiggsLabel
curated_label = record {
  event_id = "label-7";
  entity_id = "higgs-7";
  target = 1;
  label_timestamp = 12;
  schema_version = "1.0.0";
  source_run_id = "run:0";
}

abbrev joined_record : CuratedTrainingRecord ℕ
joined_record = record {
  entity_id = "higgs-7";
  feature_event_id = "feat-7";
  label_event_id = "label-7";
  event_timestamp = 10;
  features = [];
  target = 1;
  schema_version = "1.0.0";
  source_run_id = "run:1";
}

abbrev db : Db
db = record empty {
  curated_features = curated "feat-7" 10 ∷ [];
  curated_labels = curated_label ∷ [];
}

abbrev trained : Db
trained = record db { training_records = joined_record ∷ [] }

abbrev calm_gold : GoldFaults
calm_gold = record { build = calm_block; upsert = calm_block; put = none }

abbrev no_bucket : GoldFaults
no_bucket = record calm_gold { put = some (other_exception "no bucket") }

built : build_training_dataset warehouse calm_block "run:1" db ≡ (ok (joined_record ∷ []), db)
unfolding build_training_dataset warehouse
built = refl

upserted : upsert_training_records warehouse calm_block (joined_record ∷ []) db ≡ (ok 1, trained)
unfolding upsert_training_records warehouse
upserted = refl

task_returns : build_training_dataset_task warehouse calm_gold "run:1" db [] ≡ (
  ok (1, some "training/run_id=run_1.parquet"),
  trained,
  ("training/run_id=run_1.parquet", joined_record ∷ []) ∷ [],
)
unfolding build_training_dataset_task warehouse put
task_returns = refl

retry_returns :
    build_training_dataset_task warehouse calm_gold "run:1" trained [] ≡ (ok (0, none), trained, [])
unfolding build_training_dataset_task warehouse
retry_returns = refl

build_training_dataset_task-IsJoined_example : IsJoined warehouse trained
build_training_dataset_task-IsJoined_example =
    build_training_dataset_task-IsJoined warehouse calm_gold "run:1" db []
      (1, some "training/run_id=run_1.parquet") trained
      (("training/run_id=run_1.parquet", joined_record ∷ []) ∷ []) task_returns

build_training_dataset_task-lost_example :
    (build_training_dataset_task warehouse no_bucket "run:1" db []
      ≡ (raise (other_exception "no bucket"), trained, []))
    × (◌≡◌ {A = ℕ × Option String} (0, none) (0, none))
    × (◌≡◌ {A = Gold ℕ} [] [])
build_training_dataset_task-lost_example =
    build_training_dataset_task-lost warehouse "run:1" no_bucket (other_exception "no bucket") 0
      (joined_record ∷ []) db trained [] refl built upserted calm_gold (0, none) trained []
      retry_returns

abbrev served : Db
served = record empty { curated_features = curated "a" 10 ∷ curated "b" 30 ∷ curated "c" 20 ∷ [] }

abbrev posted : List (ℕ × ℕ)
posted = (10, 20) ∷ (20, 31) ∷ []

store_updated :
    update_feature_store warehouse ordering calm_block (λ n. none) 2 "run:1" served
    ≡ (ok ("materialized", 2), posted)
unfolding update_feature_store warehouse
store_updated = refl

update_feature_store-Covers_example : Covered 30 posted × (2 ≡ length posted)
update_feature_store-Covers_example =
    update_feature_store-Covers warehouse ordering calm_block 2 "run:1" (λ n. none) served
      ("materialized", 2) posted store_updated "b" (curated "b" 30) (unfold warehouse in refl) refl

abbrev source : Source
source = record {
  bounds = some (10, 50);
  chunk_boundaries = λ start end chunk_rows. 20 ∷ 40 ∷ [];
  chunk_boundaries-Ascending = λ start end chunk_rows. (omega arith, (omega arith, tt));
}

-- The second window of the run raises.
abbrev second_fails : ℕ → Option Exc
second_fails (suc zero) = some (other_exception "online store")
second_fails _ = none

abbrev no_intervals : Registry
no_intervals = []

nothing_yet : IsGapless 10 []
unfolding resume_point latest
nothing_yet hi e t p q = absurd cc

materialize_chunked-IsGapless_example :
    IsGapless 10 (materialize_chunked source second_fails 60 2 []).1
    × Complete 10 50 (materialize_chunked source second_fails 60 2 [])
    × (50 ≤ 10 → no_intervals ≡ [] → materialize_chunked source second_fails 60 2 [] ≡ (ok 0, []))
materialize_chunked-IsGapless_example =
    materialize_chunked-IsGapless source second_fails 10 50 60 2 [] refl nothing_yet
