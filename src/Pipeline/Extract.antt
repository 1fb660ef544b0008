-- ===== src/Pipeline/Extract.antt =====
-- higgs_pipeline_tasks.py, from `determine_high_watermark` to `transform_labels`: the rows of one
-- window, as frames.
use agentic_ml_engineering_l.Base.{
  ℕ, String, Bool, ◌&&◌, Option, none, some, List, [], ◌∷◌, map, ltb, leb,
}
use agentic_ml_engineering_l.Base.Dict.{Dict, get}
use agentic_ml_engineering_l.Base.Equality.{string_eq}
use agentic_ml_engineering_l.Db.Models.{HiggsFeatureEvent, HiggsLabelEvent}
use agentic_ml_engineering_l.Schemas.Features.{higgs_feature_names}
use agentic_ml_engineering_l.Pipeline.{Libraries, Database, FeatureRecord, LabelRecord}
use agentic_ml_engineering_l.Pipeline.Watermark.{get_watermark}
use agentic_ml_engineering_l.Pipeline.Validation.{
  Pandera, ValidationReport, validate, features_schema, labels_schema,
}

abbrev pub features_pipeline : String
features_pipeline = "higgs_features"

abbrev pub labels_pipeline : String
labels_pipeline = "higgs_labels"

pub record WatermarkBounds : Type 0 where
  pub features_watermark : ℕ
  pub labels_watermark : ℕ
  pub upper_bound : ℕ

-- ingested_at > watermark AND ingested_at <= upper_bound
abbrev pub in_window : ℕ → ℕ → ℕ → Bool
in_window watermark upper_bound ingested_at =
    ltb watermark ingested_at && leb ingested_at upper_bound

abbrev pub or_nan {ℓ} : {R : Type ℓ} → R → Option R → R
or_nan nan none = nan
or_nan nan (some v) = v

-- The named columns of a frame, from a row's dict.
unfoldable pub columns : {R : Type 0} → R → List String → Dict String R → Dict String R
unfolding get
columns nan [] d = []
columns nan (name ∷ names) d = (name, or_nan nan (get name d)) ∷ columns nan names d

module _ {R LF LL CF CL TR W : Type 0} (x : Libraries R LF LL CF CL TR W) where
  unfoldable pub determine_high_watermark : ℕ → Database LF LL CF CL TR W → WatermarkBounds
  unfolding get_watermark
  determine_high_watermark upper_bound db = record {
    features_watermark = get_watermark x.watermarks db.watermarks features_pipeline;
    labels_watermark = get_watermark x.watermarks db.watermarks labels_pipeline;
    upper_bound = upper_bound;
  }

  unfoldable pub feature_record : HiggsFeatureEvent R → FeatureRecord R
  unfolding columns
  feature_record r = record {
    event_id = r.event_id;
    entity_id = r.entity_id;
    event_timestamp = r.event_timestamp;
    schema_version = r.schema_version;
    features = columns x.nan higgs_feature_names r.features;
  }

  unfoldable pub extract_features : ℕ → ℕ → Database LF LL CF CL TR W → List (FeatureRecord R)
  unfolding feature_record
  extract_features features_watermark upper_bound db = map feature_record (
      x.landing_features.select (λ r. in_window features_watermark upper_bound r.ingested_at)
        db.landing_features)

  unfoldable pub label_record : HiggsLabelEvent → LabelRecord
  label_record r = record {
    event_id = r.event_id;
    entity_id = r.entity_id;
    target = r.target;
    label_timestamp = r.label_timestamp;
    schema_version = r.schema_version;
  }

  unfoldable pub extract_labels : ℕ → ℕ → Database LF LL CF CL TR W → List LabelRecord
  unfolding label_record
  extract_labels labels_watermark upper_bound db = map label_record (
      x.landing_labels.select (λ r. in_window labels_watermark upper_bound r.ingested_at)
        db.landing_labels)

  -- The columns already have the types that transform_features and transform_labels convert to.
  unfoldable pub transform_features : List (FeatureRecord R) → List (FeatureRecord R)
  transform_features df = x.sort_features df

  unfoldable pub transform_labels : List LabelRecord → List LabelRecord
  transform_labels df = x.sort_labels df

-- `now` is the clock.
module _ {R : Type 0} (pandera : Pandera (FeatureRecord R)) (now : ℕ) where
  unfoldable pub validate_features :
      List (FeatureRecord R) → List (FeatureRecord R) × ValidationReport
  unfolding validate features_schema
  validate_features df = validate pandera df (features_schema now)

module _ (pandera : Pandera LabelRecord) (now : ℕ) where
  unfoldable pub validate_labels : List LabelRecord → List LabelRecord × ValidationReport
  unfolding validate labels_schema
  validate_labels df = validate pandera df (labels_schema now)
