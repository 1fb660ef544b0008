-- ===== src/Training/Dataset.antt =====
-- dataset.py: the labelled entities and their features as of each label. A time is a number of
-- microseconds.
pub mod Newest
use Prim.Native.String.{◌++◌ as append}
use mathlib.Core.List.{Permᴰ}
use agentic_ml_engineering_l.Base.{
  ℕ, ◌≤◌, String, Bool, true, false, ◌&&◌, Option, none, some, is_some, List, [], ◌∷◌, ◌++◌, map,
  All, take, leb, ltb, if◌then◌else◌, Exc, Result, ok, raise, runtime_error, value_error, ◌==◌,
}
use agentic_ml_engineering_l.Base.Equality.{string_eq}
use agentic_ml_engineering_l.Schemas.Features.{higgs_feature_names}
use agentic_ml_engineering_l.Db.Models.{CuratedHiggsLabel}
use agentic_ml_engineering_l.Training.{Row, Frame, TrainingConfig}

-- A row of load_entity_df.
pub record Entity : Type 0 where
  pub entity_id : String
  pub event_timestamp : ℕ
  pub target : ℕ

-- No later row has a later time.
abbrev pub IsDescending : List Entity → Type 0
IsDescending [] = Unit
IsDescending (e ∷ es) = All (λ f. f.event_timestamp ≤ e.event_timestamp) es × IsDescending es

-- ORDER BY label_timestamp DESC; rows with one time come in any order.
pub record Descending : Type 0 where
  pub order : List Entity → List Entity
  pub order-Perm : (es : List Entity) → Permᴰ es (order es)
  pub order-IsDescending : (es : List Entity) → IsDescending (order es)

abbrev pub entity : CuratedHiggsLabel → Entity
entity l = record {
  entity_id = l.entity_id;
  event_timestamp = l.label_timestamp;
  target = l.target;
}

abbrev pub until : Option ℕ → ℕ → Bool
until none t = true
until (some as_of) t = leb t as_of

-- SELECT ... WHERE label_timestamp <= :as_of
unfoldable pub labelled : Option ℕ → List CuratedHiggsLabel → List Entity
labelled as_of [] = []
labelled as_of (l ∷ ls) =
    let rest = labelled as_of ls in if until as_of l.label_timestamp then entity l ∷ rest else rest

-- LIMIT :n
unfoldable pub limit : ℕ → List Entity → List Entity
limit max_rows es = if ltb 0 max_rows then take max_rows es else es

abbrev pub some_rows : List Entity → Result (List Entity)
some_rows [] =
    raise (runtime_error "curated.higgs_labels is empty — run the Milestone 2 pipeline first")
some_rows (e ∷ es) = ok (e ∷ es)

unfoldable pub load_entity_df :
    Descending → ℕ → Option ℕ → List CuratedHiggsLabel → Result (List Entity)
unfolding labelled limit
load_entity_df sql max_rows as_of labels =
    some_rows (limit max_rows (sql.order (labelled as_of labels)))

-- The point-in-time join of Feast, with the names of the features, and astype("int8").
pub record Feast (R : Type 0) : Type 0 where
  pub get_historical_features : List Entity → List String → Result (Frame R)
  pub int8 : R → R
  pub version_tag : String → Option String

abbrev pub or_unversioned : Option String → String
or_unversioned none = "unversioned"
or_unversioned (some tag) = tag

module _ {R : Type 0} where
  abbrev pub has_all : List String → Row R → Bool
  has_all [] r = true
  has_all (c ∷ cs) r = is_some (r.cell c) && has_all cs r

  unfoldable pub dropna : List String → List (Row R) → List (Row R)
  dropna cs [] = []
  dropna cs (r ∷ rs) = let rest = dropna cs rs in if has_all cs r then r ∷ rest else rest

  unfoldable pub with_target : R → Row R → Row R
  with_target v r = record r { cell = λ c. if c == "target" then some v else r.cell c }

  unfoldable pub converted : Option R → Row R → Result (List (Row R)) → Result (List (Row R))
  unfolding with_target
  converted none r rest = raise (value_error "cannot convert NA to integer")
  converted (some v) r (raise e) = raise e
  converted (some v) r (ok rs) = ok (with_target v r ∷ rs)

  unfoldable pub to_int8 : Feast R → List (Row R) → Result (List (Row R))
  unfolding converted
  to_int8 feast [] = ok []
  to_int8 feast (r ∷ rs) =
      converted (elim (r.cell "target") [ none ↦ none | some v ↦ some (feast.int8 v) ]) r
        (to_int8 feast rs)

  unfoldable pub framed : Frame R → Result (List (Row R)) → Result (Frame R)
  framed df (raise e) = raise e
  framed df (ok rows) = ok (record df { rows = rows })

  unfoldable pub cleaned : Feast R → Result (Frame R) → Result (Frame R)
  unfolding dropna framed to_int8
  cleaned feast (raise e) = raise e
  cleaned feast (ok df) = framed df (to_int8 feast (dropna higgs_feature_names df.rows))

  unfoldable pub joined : Feast R → String → Result (List Entity) → Result (Frame R)
  unfolding cleaned
  joined feast feature_view (raise e) = raise e
  joined feast feature_view (ok entities) = cleaned feast (
      feast.get_historical_features entities
        (map (λ name. append feature_view (append ":" name)) higgs_feature_names))

  unfoldable pub load_training_frame :
      Descending → Feast R → TrainingConfig R → List CuratedHiggsLabel → Result (Frame R)
  unfolding load_entity_df joined
  load_training_frame sql feast cfg labels =
      joined feast cfg.feature_view (load_entity_df sql cfg.max_rows cfg.as_of labels)

  -- The tag "version" of a feature view.
  unfoldable pub feature_view_version : Feast R → String → String
  feature_view_version feast name = or_unversioned (feast.version_tag name)
