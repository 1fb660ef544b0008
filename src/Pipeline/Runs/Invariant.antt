-- ===== src/Pipeline/Runs/Invariant.antt =====
-- The invariant of the batch pipeline's runs: what the watermarks promise, and what an extracted
-- window owes.
use agentic_ml_engineering_l.Base.{ℕ, ◌≤◌, String, true, List, In, All, ◌≡◌, ◌⊎◌, is_some}
use agentic_ml_engineering_l.Pipeline.{Libraries, Database, FeatureRecord, LabelRecord}
use agentic_ml_engineering_l.Pipeline.Validation.{Pandera, features_schema, labels_schema}
use agentic_ml_engineering_l.Pipeline.Validation.Partition.{Blamed}
use agentic_ml_engineering_l.Pipeline.Watermark.{epoch}
use agentic_ml_engineering_l.Pipeline.Extract.{WatermarkBounds}
use agentic_ml_engineering_l.Pipeline.Runs.{Job, Sys, features_watermark, labels_watermark}
use agentic_ml_engineering_l.Pipeline.Runs.Stream.{Kept, Due}

module _ {R LF LL CF CL TR W : Type 0} (x : Libraries R LF LL CF CL TR W)
    (fp : Pandera (FeatureRecord R)) (lp : Pandera LabelRecord) where
  abbrev pub S : Type 0
  S = Sys x fp lp

  -- A row of curated.higgs_features has the event_id.
  abbrev pub FeatureCurated : Database LF LL CF CL TR W → String → Type 0
  FeatureCurated db k = is_some (x.curated_features.upsert.lookup db.curated_features k) ≡ true

  abbrev pub LabelCurated : Database LF LL CF CL TR W → String → Type 0
  LabelCurated db k = is_some (x.curated_labels.upsert.lookup db.curated_labels k) ≡ true

  -- A run's validation has reported a row with the event_id.
  abbrev pub FeatureQuarantined : List (ℕ × Job R) → String → Type 0
  FeatureQuarantined validated k =
      (v : ℕ × Job R) × In v validated
      × (r : FeatureRecord R) × Blamed fp v.1.features (features_schema v.0) r
      × (r.event_id ≡ k)

  abbrev pub LabelQuarantined : List (ℕ × Job R) → String → Type 0
  LabelQuarantined validated k =
      (v : ℕ × Job R) × In v validated
      × (r : LabelRecord) × Blamed lp v.1.labels (labels_schema v.0) r
      × (r.event_id ≡ k)

  abbrev pub FeatureIn : Job R → String → Type 0
  FeatureIn j k = (r : FeatureRecord R) × In r j.features × (r.event_id ≡ k)

  abbrev pub LabelIn : Job R → String → Type 0
  LabelIn j k = (r : LabelRecord) × In r j.labels × (r.event_id ≡ k)

  abbrev pub FeatureDone : Database LF LL CF CL TR W → List (ℕ × Job R) → String → Type 0
  FeatureDone db validated k = FeatureCurated db k ⊎ FeatureQuarantined validated k

  abbrev pub LabelDone : Database LF LL CF CL TR W → List (ℕ × Job R) → String → Type 0
  LabelDone db validated k = LabelCurated db k ⊎ LabelQuarantined validated k

  -- Bounds are not ahead of the watermarks.
  pub record Behind (db : Database LF LL CF CL TR W) (b : WatermarkBounds) : Type 0 where
    pub features : b.features_watermark ≤ features_watermark x fp lp db
    pub labels : b.labels_watermark ≤ labels_watermark x fp lp db
    pub late : epoch ≤ b.upper_bound

  -- What a job owes.
  pub record Owes (db : Database LF LL CF CL TR W) (j : Job R) : Type 0 where
    pub features :
        Due x.landing_features
          (λ r. r.ingested_at)
          db.landing_features
          (features_watermark x fp lp db)
          j.bounds.upper_bound
          (FeatureIn j)
    pub labels :
        Due x.landing_labels
          (λ r. r.ingested_at)
          db.landing_labels
          (labels_watermark x fp lp db)
          j.bounds.upper_bound
          (LabelIn j)
    pub late : epoch ≤ j.bounds.upper_bound

  pub record IsComplete (s : S) : Type 0 where
    pub features :
        Kept x.landing_features
          (λ r. r.ingested_at)
          s.db.landing_features
          (FeatureDone s.db s.validated)
          (features_watermark x fp lp s.db)
    pub labels :
        Kept x.landing_labels
          (λ r. r.ingested_at)
          s.db.landing_labels
          (LabelDone s.db s.validated)
          (labels_watermark x fp lp s.db)
    pub behind : All (Behind s.db) s.bounds
    pub owes : All (Owes s.db) s.jobs
