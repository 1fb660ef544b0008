-- ===== src/Pipeline/FeatureStore.antt =====
-- higgs_pipeline_tasks.py, `materialize_windows_for_run` and `update_feature_store`: a run's curated
-- features go to the feature server, window by window.
pub mod Covers
use agentic_ml_engineering_l.Base.{
  ℕ, zero, suc, ◌+◌, ◌%◌, min, max, String, Bool, Option, none, some, List, [], ◌∷◌, ◌++◌, length,
  map, In, ◌≡◌, ◌↔◌, ◌==◌, if◌then◌else◌, Exc, Result, ok, raise,
}
use agentic_ml_engineering_l.Base.Equality.{string_eq, nat_eq}
use agentic_ml_engineering_l.Db.Block.{Block, Faults, return, execute, ◌>>=◌, transact}
use agentic_ml_engineering_l.Db.Models.{CuratedHiggsFeature}
use agentic_ml_engineering_l.Pipeline.{Libraries, Database}
use agentic_ml_engineering_l.Pipeline.Windows.{materialize_windows, Ascending}

-- ORDER BY, on the timestamps of the rows that a query selects.
pub record Ordering : Type 0 where
  pub order_by : List ℕ → List ℕ
  pub order_by-Ascending : (ts : List ℕ) → Ascending 0 (order_by ts)

-- func.min and func.max over the rows after the first.
unfoldable pub least : ℕ → List ℕ → ℕ
least t [] = t
least t (u ∷ ts) = least (min t u) ts

unfoldable pub greatest : ℕ → List ℕ → ℕ
greatest t [] = t
greatest t (u ∷ ts) = greatest (max t u) ts

-- The timestamps whose row_number() is a multiple of chunk_rows; rn numbers the first.
unfoldable pub every : ℕ → ℕ → List ℕ → List ℕ
every chunk_rows rn [] = []
every chunk_rows rn (t ∷ ts) =
    let rest = every chunk_rows (suc rn) ts in if rn % chunk_rows == 0 then t ∷ rest else rest

-- timedelta(microseconds=1)
abbrev pub window_end_pad : ℕ
window_end_pad = 1

module _ {R LF LL CF CL TR W : Type 0} (x : Libraries R LF LL CF CL TR W) (o : Ordering) where
  abbrev pub timestamps : List (CuratedHiggsFeature R) → List ℕ
  timestamps [] = []
  timestamps (r ∷ rows) = r.event_timestamp ∷ timestamps rows

  rows_of : String → Database LF LL CF CL TR W → List ℕ × Database LF LL CF CL TR W
  rows_of run_id d = (
    timestamps (x.curated_features.select (λ r. r.source_run_id == run_id) d.curated_features),
    d,
  )

  boundaries_of : ℕ → String → Database LF LL CF CL TR W → List ℕ × Database LF LL CF CL TR W
  unfolding rows_of every
  boundaries_of chunk_rows run_id d = (every chunk_rows 1 (o.order_by (rows_of run_id d).0), d)

  between : Faults → ℕ → String → List ℕ → Block (Database LF LL CF CL TR W) (List (ℕ × ℕ))
  unfolding return execute boundaries_of least greatest materialize_windows
  between faults chunk_rows run_id [] = return []
  between faults chunk_rows run_id (t ∷ ts) =
      execute faults (boundaries_of chunk_rows run_id) >>= λ boundaries.
      return (materialize_windows (least t ts) (greatest t ts + window_end_pad) boundaries)

  unfoldable pub materialize_windows_for_run :
      Faults
      → ℕ
      → String
      → Database LF LL CF CL TR W
      → Result (List (ℕ × ℕ)) × Database LF LL CF CL TR W
  unfolding transact execute rows_of between
  materialize_windows_for_run faults chunk_rows run_id =
      transact faults (execute faults (rows_of run_id) >>= between faults chunk_rows run_id)

  -- What the n-th `post` raises, if it does; the windows posted so far.
  unfoldable pub post_all :
      (ℕ → Option Exc) → ℕ → List (ℕ × ℕ) → List (ℕ × ℕ) → Result (Unit {0}) × List (ℕ × ℕ)
  post_all errors n [] posted = (ok tt, posted)
  post_all errors n (w ∷ windows) posted = elim (errors n) [
    | some e ↦ (raise e, posted)
    | none ↦ post_all errors (suc n) windows (posted ++ w ∷ [])
  ]

  -- The dict that the task returns: its status and the number of windows.
  abbrev pub summary : List (ℕ × ℕ) → String × ℕ
  summary [] = ("nothing_to_materialize", 0)
  summary (w ∷ windows) = ("materialized", length (w ∷ windows))

  after_post : List (ℕ × ℕ) → Result (Unit {0}) × List (ℕ × ℕ) → Result (String × ℕ) × List (ℕ × ℕ)
  after_post windows (raise e, posted) = (raise e, posted)
  after_post windows (ok _, posted) = (ok (summary windows), posted)

  after_windows :
      (ℕ → Option Exc)
      → Result (List (ℕ × ℕ)) × Database LF LL CF CL TR W
      → Result (String × ℕ) × List (ℕ × ℕ)
  unfolding post_all after_post
  after_windows errors (raise e, d) = (raise e, [])
  after_windows errors (ok windows, d) = after_post windows (post_all errors 0 windows [])

  unfoldable pub update_feature_store :
      Faults
      → (ℕ → Option Exc)
      → ℕ
      → String
      → Database LF LL CF CL TR W
      → Result (String × ℕ) × List (ℕ × ℕ)
  unfolding materialize_windows_for_run after_windows
  update_feature_store faults errors chunk_rows run_id db =
      after_windows errors (materialize_windows_for_run faults chunk_rows run_id db)
