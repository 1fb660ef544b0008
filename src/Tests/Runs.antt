-- ===== src/Tests/Runs.antt =====
-- Two feature events land, and a run curates one and quarantines the other.
use agentic_ml_engineering_l.Base.{ℕ, ◌+◌, String, false, [], ◌∷◌, ◌≡◌, refl, ◌==◌, inl, arith}
use agentic_ml_engineering_l.Base.Equality.{string_eq}
use agentic_ml_engineering_l.Db.Models.{HiggsFeatureEvent}
use agentic_ml_engineering_l.Pipeline.{FeatureRecord, LabelRecord}
use agentic_ml_engineering_l.Pipeline.Extract.{WatermarkBounds, determine_high_watermark}
use agentic_ml_engineering_l.Pipeline.Validation.{Pandera}
use agentic_ml_engineering_l.Pipeline.Watermark.{epoch, get_watermark}
use agentic_ml_engineering_l.Pipeline.Runs.{
  Job, System, Reach, extract, rejected, curate, here, next, land_feature, determine, stage, commit,
}
use agentic_ml_engineering_l.Pipeline.Runs.Stream.{landed}
use agentic_ml_engineering_l.Pipeline.Runs.Complete.{IsFresh, IsSettled, Reach-IsSettled}
use agentic_ml_engineering_l.Tests.Warehouse.{
  warehouse, watermarks, set_watermark, LandingFeatures, LandingLabels, CuratedFeatures,
  CuratedLabels, TrainingRecords, W, empty, pandera, calm_block,
}

abbrev event : String → ℕ → HiggsFeatureEvent ℕ
event key t = record {
  event_id = key;
  entity_id = key;
  event_timestamp = 1;
  schema_version = "1.0.0";
  source = "source_simulator";
  features = [];
  trace_id = "t";
  kafka_partition = 0;
  kafka_offset = 3;
  ingested_at = epoch + t;
}

abbrev fp : Pandera (FeatureRecord ℕ)
fp = pandera (λ r. r.entity_id == "bad")

abbrev lp : Pandera LabelRecord
lp = pandera (λ r. false)

abbrev Sys : Type 0
Sys = System ℕ LandingFeatures LandingLabels CuratedFeatures CuratedLabels TrainingRecords W

abbrev fresh : Sys
fresh = record { db = empty; bounds = []; jobs = []; validated = [] }

abbrev land : HiggsFeatureEvent ℕ → Sys → Sys
land r s = record s {
  db = record s.db {
    landing_features =
        landed warehouse.landing_features (λ e. e.ingested_at) r s.db.landing_features;
  };
}

abbrev two_landed : Sys
two_landed = land (event "bad" 20) (land (event "good" 10) fresh)

abbrev bounds : WatermarkBounds
unfolding determine_high_watermark
bounds = determine_high_watermark warehouse (epoch + 30) two_landed.db

abbrev job : Job ℕ
unfolding extract
job = extract warehouse fp lp two_landed.db bounds

abbrev determined : Sys
determined = record two_landed { bounds = bounds ∷ [] }

abbrev staged : Sys
staged = record determined { jobs = job ∷ [] }

abbrev committed : Sys
unfolding curate
committed = record staged {
  db = (curate warehouse fp lp calm_block 100 "run:1" job staged.db).1;
  validated = (100, job) ∷ [];
}

gate : rejected warehouse fp lp 500000 100 job ≡ false
unfolding rejected job pandera warehouse bounds
gate = refl

reached : Reach warehouse fp lp 500000 fresh committed
unfolding get_watermark warehouse watermarks set_watermark determine_high_watermark bounds extract
    job committed
reached =
    next
      (next
        (next
          (next (next here (land_feature (event "good" 10) (omega arith, tt)))
            (land_feature (event "bad" 20) (omega arith, tt)))
          (determine (epoch + 30) (omega arith)))
        (stage bounds (inl refl)))
      (commit calm_block 100 "run:1" job (inl refl) gate)

is_fresh : IsFresh warehouse fp lp fresh
unfolding warehouse
is_fresh = record {
  no_features = λ k. refl;
  no_labels = λ k. refl;
  no_bounds = refl;
  no_jobs = refl;
}

Reach-IsSettled_example : IsSettled warehouse fp lp committed
Reach-IsSettled_example = Reach-IsSettled warehouse fp lp reached is_fresh

-- After the run, a row commits with a time from before its end, and another run extracts.
abbrev late_landed : Sys
late_landed = land (event "late" 25) (record committed { bounds = []; jobs = [] })

abbrev next_bounds : WatermarkBounds
unfolding determine_high_watermark
next_bounds = determine_high_watermark warehouse (epoch + 50) late_landed.db

abbrev next_determined : Sys
next_determined = record late_landed { bounds = next_bounds ∷ [] }

abbrev next_staged : Sys
unfolding extract
next_staged = record next_determined {
  jobs = extract warehouse fp lp late_landed.db next_bounds ∷ [];
}
