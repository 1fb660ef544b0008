-- ===== src/Tests/Warehouse.antt =====
-- A small warehouse for the batch pipeline: the tables in memory, frames that need no sorting, a clock
-- of small numbers, and a Pandera that refuses the rows of one entity.
use agentic_ml_engineering_l.Base.{
  ℕ, suc, ◌≤◌, ◌<◌, ◌+◌, leb, Bool, sym, ap, ◌∙◌, String, none, some, List, [], ◌∷◌, length, In,
  ◌≡◌, refl, if◌then◌else◌, database_error, inl, inr, arith, Bool-cases,
}
use agentic_ml_engineering_l.Base.Dict.{Dict, get, put, get-put}
use agentic_ml_engineering_l.Base.Equality.{string_eq}
use agentic_ml_engineering_l.Db.Block.{Faults}
use agentic_ml_engineering_l.Db.MemoryTable.{table_in_memory}
use agentic_ml_engineering_l.Db.Models.{
  HiggsFeatureEvent, HiggsLabelEvent, CuratedHiggsFeature, CuratedHiggsLabel, CuratedTrainingRecord,
}
use agentic_ml_engineering_l.Pipeline.{Libraries, Database}
use agentic_ml_engineering_l.Pipeline.Watermark.{Watermarks, merged}
use agentic_ml_engineering_l.Pipeline.Validation.{FailureCase, Pandera}
use agentic_ml_engineering_l.Pipeline.FeatureStore.{Ordering}
use agentic_ml_engineering_l.Pipeline.Windows.{Ascending}

unfoldable pub set_watermark : (ℕ → ℕ → ℕ) → String → ℕ → Dict String ℕ → Dict String ℕ
unfolding get put
set_watermark set k v w = put k (merged set (get k w) v) w

unfoldable pub watermarks : Watermarks (Dict String ℕ)
unfolding get put set_watermark
watermarks = record {
  get = λ w k. get k w;
  upsert = set_watermark;
  get-upsert = λ set k j v w. get-put k j (merged set (get k w) v) w;
}

abbrev pub LandingFeatures : Type 0
LandingFeatures = List (HiggsFeatureEvent ℕ)

abbrev pub LandingLabels : Type 0
LandingLabels = List HiggsLabelEvent

abbrev pub CuratedFeatures : Type 0
CuratedFeatures = List (CuratedHiggsFeature ℕ)

abbrev pub CuratedLabels : Type 0
CuratedLabels = List CuratedHiggsLabel

abbrev pub TrainingRecords : Type 0
TrainingRecords = List (CuratedTrainingRecord ℕ)

abbrev pub W : Type 0
W = Dict String ℕ

abbrev pub Db : Type 0
Db = Database LandingFeatures LandingLabels CuratedFeatures CuratedLabels TrainingRecords W

unfoldable pub warehouse :
    Libraries ℕ LandingFeatures LandingLabels CuratedFeatures CuratedLabels TrainingRecords W
unfolding table_in_memory watermarks
warehouse = record {
  landing_features = table_in_memory (λ r. r.event_id);
  landing_labels = table_in_memory (λ r. r.event_id);
  curated_features = table_in_memory (λ r. r.event_id);
  curated_labels = table_in_memory (λ r. r.event_id);
  training_records = table_in_memory (λ r. r.entity_id);
  watermarks = watermarks;
  landing_features_key = λ r. refl;
  landing_labels_key = λ r. refl;
  curated_features_key = λ r. refl;
  curated_labels_key = λ r. refl;
  training_records_key = λ r. refl;
  nan = 0;
  sort_features = λ df. df;
  sort_labels = λ df. df;
  In-sort_features = λ r df. ((λ i. i), (λ i. i));
  In-sort_labels = λ r df. ((λ i. i), (λ i. i));
}

abbrev pub empty : Db
empty = record {
  landing_features = [];
  landing_labels = [];
  curated_features = [];
  curated_labels = [];
  training_records = [];
  watermarks = [];
}

-- A schema that refuses some rows; the rows are counted from the first number.
module _ {Row : Type 0} (bad : Row → Bool) where
  unfoldable pub refused : ℕ → List Row → List FailureCase
  refused i [] = []
  refused i (r ∷ df) =
      let rest = refused (suc i) df in
      if bad r
      then record { column = "entity_id"; check = "str_startswith"; index = some i } ∷ rest
      else rest

  pub refused-lt :
      (i : ℕ) (df : List Row) (f : FailureCase) (p : ℕ)
      → In f (refused i df)
      → f.index ≡ some p
      → p < i + length df
  unfolding refused
  refused-lt i [] f p h e = elim h [ ]
  refused-lt i (r ∷ df) f p h e = elim (Bool-cases (bad r)) [
    | inl b ↦ elim (rw b at h) [
      | inl q ↦
          let s : some i ≡ some p = ap (λ (g : FailureCase). g.index) (sym q) ∙ e in ground arith
      | inr j ↦ let k = refused-lt (suc i) df f p j e in omega arith
    ]
    | inr b ↦ let k = refused-lt (suc i) df f p (rw b at h) e in omega arith
  ]

  unfoldable pub pandera : Pandera Row
  unfolding refused
  pandera = record {
    failure_cases = λ schema df. refused 0 df;
    index-lt-length = λ schema df f i h e. let k = refused-lt 0 df f i h e in omega arith;
  }

abbrev pub insert : ℕ → List ℕ → List ℕ
insert t [] = t ∷ []
insert t (u ∷ us) = let rest = insert t us in if leb t u then t ∷ u ∷ us else u ∷ rest

abbrev pub sort : List ℕ → List ℕ
sort [] = []
sort (t ∷ ts) = insert t (sort ts)

insert-Ascending : (lo t : ℕ) (us : List ℕ) → lo ≤ t → Ascending lo us → Ascending lo (insert t us)
insert-Ascending lo t [] h a = (h, tt)
insert-Ascending lo t (u ∷ us) h a = elim (Bool-cases (leb t u)) [
  | inl e ↦ rw e (h, (ground arith, a.1))
  | inr e ↦ rw e (a.0, insert-Ascending u t us (ground arith) a.1)
]

pub sort-Ascending : (ts : List ℕ) → Ascending 0 (sort ts)
sort-Ascending [] = tt
sort-Ascending (t ∷ ts) = insert-Ascending 0 t (sort ts) (omega arith) (sort-Ascending ts)

abbrev pub ordering : Ordering
ordering = record { order_by = sort; order_by-Ascending = sort-Ascending }

-- Nothing fails.
abbrev pub calm_block : Faults
calm_block = record { statement = λ n. none; commit = none }

-- The commit is lost.
abbrev pub lost_commit : Faults
lost_commit = record { statement = λ n. none; commit = some (database_error "connection lost") }
