-- ===== src/Pipeline/Runs/Late.antt =====
-- watermark.py and models.py: `ingested_at` is PostgreSQL's now(), the start of the transaction that
-- inserts a row, so a row can commit with a time that a watermark has already passed.
use agentic_ml_engineering_l.Base.{◌≤◌, none, some, All, ◌≡◌}
use agentic_ml_engineering_l.Base.Equality.{string_eq}
use agentic_ml_engineering_l.Db.Models.{HiggsFeatureEvent}
use agentic_ml_engineering_l.Pipeline.{Libraries, FeatureRecord, LabelRecord}
use agentic_ml_engineering_l.Pipeline.Validation.{Pandera}
use agentic_ml_engineering_l.Pipeline.Watermark.{epoch}
use agentic_ml_engineering_l.Pipeline.Extract.{WatermarkBounds}
use agentic_ml_engineering_l.Pipeline.Runs.{Job, features_watermark}
use agentic_ml_engineering_l.Pipeline.Runs.Invariant.{S, FeatureIn}

module _ {R LF LL CF CL TR W : Type 0} (x : Libraries R LF LL CF CL TR W)
    (fp : Pandera (FeatureRecord R)) (lp : Pandera LabelRecord) (r : HiggsFeatureEvent R) where
  -- The row has landed and is not curated; the watermark has reached its ingested_at, and so have the
  -- watermarks of the runs that go on; and no frame of theirs has it.
  pub record IsMissed (s : S x fp lp) : Type 0 where
    pub stored : x.landing_features.upsert.lookup s.db.landing_features r.event_id ≡ some r
    pub passed : r.ingested_at ≤ features_watermark x fp lp s.db
    pub missing : x.curated_features.upsert.lookup s.db.curated_features r.event_id ≡ none
    pub bounds :
        All
          (λ (b : WatermarkBounds).
            (r.ingested_at ≤ b.features_watermark) × (epoch ≤ b.upper_bound))
          s.bounds
    pub jobs :
        All
          (λ (j : Job R). (¬ FeatureIn x fp lp j r.event_id) × (epoch ≤ j.bounds.upper_bound))
          s.jobs
