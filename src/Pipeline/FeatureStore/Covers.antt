-- ===== src/Pipeline/FeatureStore/Covers.antt =====
-- higgs_pipeline_tasks.py, `update_feature_store`: a run that returns leaves no row of its own out.
use agentic_ml_engineering_l.Base.{
  ℕ, suc, ◌+◌, ◌≤◌, ◌%◌, min, max, String, Option, some, List, [], ◌∷◌, ◌++◌, length, In, ◌≡◌, refl,
  sym, subst, ap, ◌∙◌, ◌==◌, ==_refl, ◌⊎◌, inl, inr, Bool-cases, Option-cases, Exc, Result, ok,
  raise, arith,
}
use mathlib.Core.List.{append-nil, append_assoc}
use agentic_ml_engineering_l.Base.Equality.{string_eq, nat_eq}
use agentic_ml_engineering_l.Db.Block.{
  Faults, OnOk, execute, ◌>>=◌, return-OnOk, execute-OnOk, >>=-OnOk, transact_cases,
}
use agentic_ml_engineering_l.Db.Models.{CuratedHiggsFeature}
use agentic_ml_engineering_l.Pipeline.{Libraries, Database}
use agentic_ml_engineering_l.Pipeline.Windows.{
  materialize_windows, Ascending, Covered, Tiles-Covered, materialize_windows-Tiles,
}
use agentic_ml_engineering_l.Pipeline.FeatureStore.{
  Ordering, least, greatest, every, window_end_pad, timestamps, rows_of, boundaries_of, between,
  materialize_windows_for_run, post_all, summary, after_post, after_windows, update_feature_store,
}

least-le : (t u : ℕ) (ts : List ℕ) → In u (t ∷ ts) → least t ts ≤ u
unfolding least
least-le t u [] (inl e) = rw e (omega arith)
least-le t u [] (inr i) = elim i [ ]
least-le t u (v ∷ ts) (inl e) =
    let h = least-le (min t v) (min t v) ts (inl refl) in rw e (omega arith)
least-le t u (v ∷ ts) (inr (inl e)) =
    let h = least-le (min t v) (min t v) ts (inl refl) in rw e (omega arith)
least-le t u (v ∷ ts) (inr (inr i)) = least-le (min t v) u ts (inr i)

le-greatest : (t u : ℕ) (ts : List ℕ) → In u (t ∷ ts) → u ≤ greatest t ts
unfolding greatest
le-greatest t u [] (inl e) = rw e (omega arith)
le-greatest t u [] (inr i) = elim i [ ]
le-greatest t u (v ∷ ts) (inl e) =
    let h = le-greatest (max t v) (max t v) ts (inl refl) in rw e (omega arith)
le-greatest t u (v ∷ ts) (inr (inl e)) =
    let h = le-greatest (max t v) (max t v) ts (inl refl) in rw e (omega arith)
le-greatest t u (v ∷ ts) (inr (inr i)) = le-greatest (max t v) u ts (inr i)

every-Ascending :
    (c rn lo lo' : ℕ) (ts : List ℕ) → lo' ≤ lo → Ascending lo ts → Ascending lo' (every c rn ts)
unfolding every
every-Ascending c rn lo lo' [] h a = tt
every-Ascending c rn lo lo' (t ∷ ts) h a = elim (Bool-cases (rn % c == 0)) [
  | inl e ↦ rw e (omega arith, every-Ascending c (suc rn) t t ts (omega arith) a.1)
  | inr e ↦ rw e (every-Ascending c (suc rn) t lo' ts (omega arith) a.1)
]

In-timestamps :
    {R LF LL CF CL TR W : Type 0} (x : Libraries R LF LL CF CL TR W) (o : Ordering)
    (r : CuratedHiggsFeature R) (rows : List (CuratedHiggsFeature R))
    → In r rows
    → In r.event_timestamp (timestamps x o rows)
In-timestamps x o r [] i = i
In-timestamps x o r (s ∷ rows) (inl e) =
    inl (ap (λ (q : CuratedHiggsFeature _). q.event_timestamp) e)
In-timestamps x o r (s ∷ rows) (inr i) = inr (In-timestamps x o r rows i)

module _ {R LF LL CF CL TR W : Type 0} (x : Libraries R LF LL CF CL TR W) (o : Ordering)
    (faults : Faults) (chunk_rows : ℕ) (run_id : String) where
  -- Every time of the list lies in a window.
  abbrev AllCovered : List ℕ → List (ℕ × ℕ) → Type 0
  AllCovered ts windows = (u : ℕ) → In u ts → Covered u windows

  windows-AllCovered :
      (t : ℕ) (ts boundaries : List ℕ)
      → Ascending 0 boundaries
      → AllCovered
          (t ∷ ts)
          (materialize_windows (least t ts) (greatest t ts + window_end_pad) boundaries)
  windows-AllCovered t ts boundaries a u i =
      let lo = least-le t u ts i in
      let hi = le-greatest t u ts i in
      Tiles-Covered (least t ts) (greatest t ts + window_end_pad) u _
        (materialize_windows-Tiles (least t ts) (greatest t ts + window_end_pad) boundaries
          (omega arith) a)
        (omega arith) lo (omega arith)

  between-AllCovered :
      (ts : List ℕ) (d : Database LF LL CF CL TR W) (n : ℕ)
      → OnOk (λ windows _. AllCovered ts windows) (between x o faults chunk_rows run_id ts d n)
  unfolding between
  between-AllCovered [] d n =
      return-OnOk (λ windows _. AllCovered [] windows) [] d n (λ u i. elim i [ ])
  between-AllCovered (t ∷ ts) d n =
      >>=-OnOk (λ boundaries _. Ascending 0 boundaries) _
        (execute faults (boundaries_of x o chunk_rows run_id)) _ d n
        (execute-OnOk (λ boundaries _. Ascending 0 boundaries) faults
          (boundaries_of x o chunk_rows run_id) d n
          (every-Ascending chunk_rows 1 0 0 _ (omega arith) (o.order_by-Ascending _)))
        λ boundaries d' n' a.
          return-OnOk (λ windows _. AllCovered (t ∷ ts) windows)
            (materialize_windows (least t ts) (greatest t ts + window_end_pad) boundaries) d' n'
            (windows-AllCovered t ts boundaries a)

  for_run-AllCovered :
      (d : Database LF LL CF CL TR W)
      → ((windows : List (ℕ × ℕ)) × (d' : Database LF LL CF CL TR W) × (materialize_windows_for_run
              x o faults chunk_rows run_id d
            ≡ (ok windows, d'))
          × AllCovered (rows_of x o run_id d).0 windows)
        ⊎ ((e : Exc) × (materialize_windows_for_run x o faults chunk_rows run_id d ≡ (raise e, d)))
  unfolding materialize_windows_for_run
  for_run-AllCovered d =
      transact_cases (λ windows _. AllCovered (rows_of x o run_id d).0 windows) faults
        (execute faults (rows_of x o run_id) >>= between x o faults chunk_rows run_id) d
        (>>=-OnOk (λ ts _. ts ≡ (rows_of x o run_id d).0)
          (λ windows _. AllCovered (rows_of x o run_id d).0 windows)
          (execute faults (rows_of x o run_id)) (between x o faults chunk_rows run_id) d 0
          (execute-OnOk (λ ts _. ts ≡ (rows_of x o run_id d).0) faults (rows_of x o run_id) d 0
            refl)
          λ ts d' n e.
            subst
              (λ l.
                OnOk (λ windows _. AllCovered l windows)
                  (between x o faults chunk_rows run_id ts d' n))
              e (between-AllCovered ts d' n))

  -- A loop that returns has posted all.
  post_all-ok :
      (errors : ℕ → Option Exc) (n : ℕ) (windows acc posted : List (ℕ × ℕ))
      → post_all x o errors n windows acc ≡ (ok tt, posted)
      → posted ≡ acc ++ windows
  unfolding post_all
  post_all-ok errors n [] acc posted h =
      sym (ap (λ (r : Result (Unit {0}) × List (ℕ × ℕ)). r.1) h) ∙ sym (append-nil acc)
  post_all-ok errors n (w ∷ windows) acc posted h = elim (Option-cases (errors n)) [
    | inr (e, q) ↦ absurd (let r = rw (q, post_all) at h in cc)
    | inl q ↦
        post_all-ok errors (suc n) windows (acc ++ w ∷ []) posted (rw (q, post_all) at h)
        ∙ append_assoc acc (w ∷ []) windows
  ]

  after_post-ok :
      (windows : List (ℕ × ℕ)) (r : Result (Unit {0}) × List (ℕ × ℕ)) (s : String × ℕ)
      (posted : List (ℕ × ℕ))
      → after_post x o windows r ≡ (ok s, posted)
      → (r ≡ (ok tt, posted)) × (s ≡ summary x o windows)
  unfolding after_post
  after_post-ok windows (raise e, p) s posted h = absurd (cc)
  after_post-ok windows (ok tt, p) s posted h = (cc, cc)

  summary-length : (windows : List (ℕ × ℕ)) → (summary x o windows).1 ≡ length windows
  summary-length [] = refl
  summary-length (w ∷ windows) = refl

  module _ (errors : ℕ → Option Exc) (db : Database LF LL CF CL TR W) (s : String × ℕ)
      (posted : List (ℕ × ℕ))
      (returned : update_feature_store x o faults errors chunk_rows run_id db
        ≡ (ok s, posted)) where
    posted_windows :
        (windows : List (ℕ × ℕ))
        → after_post x o windows (post_all x o errors 0 windows []) ≡ (ok s, posted)
        → (posted ≡ windows) × (s.1 ≡ length posted)
    posted_windows windows h =
        let (p, q) = after_post-ok windows (post_all x o errors 0 windows []) s posted h in
        let e = post_all-ok errors 0 windows [] posted p in
        (e, ap (λ (v : String × ℕ). v.1) q ∙ summary-length windows ∙ ap length (sym e))

    returned_after :
        after_windows x o errors (materialize_windows_for_run x o faults chunk_rows run_id db)
        ≡ (ok s, posted)
    unfolding update_feature_store
    returned_after = returned

    -- If the task returns, every curated row of the run lies in a window that it posted, and the summary
    -- counts the posted windows.
    pub update_feature_store-Covers :
        (k : String) (r : CuratedHiggsFeature R)
        → x.curated_features.upsert.lookup db.curated_features k ≡ some r
        → r.source_run_id ≡ run_id
        → Covered r.event_timestamp posted × (s.1 ≡ length posted)
    unfolding after_windows rows_of
    update_feature_store-Covers k r h e = elim (for_run-AllCovered db) [
      | inr (exc, q) ↦ absurd (let f = rw (q, after_windows) at returned_after in cc)
      | inl (windows, d', q, all) ↦
          let (p, c) = posted_windows windows (rw (q, after_windows) at returned_after) in
          let i = all r.event_timestamp (
            In-timestamps x o r _ (
              x.curated_features.select_complete _ db.curated_features r
                (rw (x.curated_features.lookup-key db.curated_features k r h) h)
                (rw e (==_refl run_id)))) in
          (subst (Covered r.event_timestamp) (sym p) i, c)
    ]
