-- ===== src/Training/Promote/Approval.antt =====
-- promote.py: the registry changes only for a candidate that its criteria and the champion's metrics
-- approve, and only in what a promotion writes.
use agentic_ml_engineering_l.Base.{
  ◌==◌, String, Bool, true, false, Option, none, some, All, All-append, ◌≡◌, refl, ap, ◌⊎◌, inl,
  inr, Exc, Result, Bool-cases,
}
use agentic_ml_engineering_l.Base.Equality.{string_eq, pair_eq}
use agentic_ml_engineering_l.Training.Promote.{
  Float, Metrics, PromotionDecision, evaluate_promotion, Call, value, mlflow_exception, raised,
  Registry, TrainingConfig, Mlflow, write_all, superseded, writes, written, decided, evaluated,
  with_champion, with_previous, with_candidate, with_version, promote,
}
use agentic_ml_engineering_l.Training.Promote.Gate.{IsApproved, evaluate_promotion-IsApproved}
use agentic_ml_engineering_l.Training.Promote.Changes.{
  IsPromoted, Keeps, set_alias-Keeps, set_tag-Keeps, add_promotion-Keeps, write_all-Keeps,
  IsPromoted-refl,
}

module _ {R : Type 0} (champion_alias version : String) (s : Registry R) where
  superseded-Keeps :
      (previous : Option String)
      → All (Keeps champion_alias version s) (superseded previous version)
  unfolding superseded
  superseded-Keeps none = tt
  superseded-Keeps (some previous) = elim (Bool-cases (previous == version)) [
    | inl e ↦ rw e tt
    | inr e ↦
        rw e
          (set_tag-Keeps champion_alias version s previous "superseded_by" version (inr refl), tt)
  ]

module _ {R : Type 0} (cfg : TrainingConfig R) (mlflow : Mlflow R) where
  -- The version that a promotion is about: the one given, or the one of the candidate's alias.
  abbrev pub chosen : Option String → Registry R → Call String
  chosen (some version) s = value version
  chosen none s = mlflow.get_model_version_by_alias s.aliases cfg.candidate_alias

  -- The metrics to compare with: none where no version has the champion's alias, or where MLflow does
  -- not give its metrics.
  abbrev pub metrics_of : Call (Option String × Metrics R) → Call (Option (Metrics R))
  metrics_of (value (run_id, metrics)) = value (some metrics)
  metrics_of (mlflow_exception t) = value none
  metrics_of (raised e) = raised e

  abbrev pub champion_metrics : Call String → Call (Option (Metrics R))
  champion_metrics (value previous) = metrics_of (mlflow.metrics_for_version previous)
  champion_metrics (mlflow_exception t) = value none
  champion_metrics (raised e) = raised e

module _ {R : Type 0} (float : Float R) (cfg : TrainingConfig R) (mlflow : Mlflow R) where
  -- The version's own metrics pass the criteria against those of the champion of the registry.
  pub record HasApproval (version : String) (s : Registry R) : Type 0 where
    pub run_id : Option String
    pub candidate : Metrics R
    pub champion : Option (Metrics R)
    pub measured : mlflow.metrics_for_version version ≡ value (run_id, candidate)
    pub compared :
        champion_metrics cfg mlflow (mlflow.get_model_version_by_alias s.aliases cfg.champion_alias)
        ≡ value champion
    pub approved : IsApproved float candidate champion cfg.criteria

  abbrev pub Guarded : Call String → Registry R → Result (PromotionDecision R) × Registry R → Type 0
  Guarded read s out =
      (out.1 ≡ s)
      ⊎ ((version : String) × (read ≡ value version)
          × HasApproval version s
          × IsPromoted cfg.champion_alias version s out.1)

module _ {R : Type 0} (float : Float R) (cfg : TrainingConfig R) (mlflow : Mlflow R)
    (decided_by : String) (reason_text : PromotionDecision R → Bool → String) where
  writes-Keeps :
      (version : String) (run_id previous : Option String) (decision : PromotionDecision R)
      (s : Registry R)
      → decision.approved ≡ true
      → All
          (Keeps cfg.champion_alias version s)
          (writes float cfg mlflow decided_by false reason_text version run_id previous decision)
  unfolding writes
  writes-Keeps version run_id previous decision s a = (
    set_alias-Keeps cfg.champion_alias version s,
    (
      set_tag-Keeps cfg.champion_alias version s version "promoted_by" decided_by (inl refl),
      (
        set_tag-Keeps cfg.champion_alias version s version "promotion_reason" _ (inl refl),
        All-append _ (superseded previous version) _
            (superseded-Keeps cfg.champion_alias version s previous)
            (add_promotion-Keeps cfg.champion_alias version s _ (refl, refl, a), tt),
      ),
    ),
  )

  decided-IsPromoted :
      (version : String) (run_id previous : Option String) (decision : PromotionDecision R)
      (s : Registry R)
      → decision.approved ≡ true
      → IsPromoted cfg.champion_alias version s
          (decided float cfg mlflow decided_by false reason_text version run_id previous decision
            s).1
  unfolding decided
  decided-IsPromoted version run_id previous decision s a =
      let ws =
        writes float cfg mlflow decided_by false reason_text version run_id previous decision in
      simp a (
        stored decision (write_all mlflow.write_error 0 ws s) (
          write_all-Keeps cfg.champion_alias version s mlflow.write_error 0 ws s
            (writes-Keeps version run_id previous decision s a)
            (IsPromoted-refl cfg.champion_alias version s)))
    where
      stored :
          (decision : PromotionDecision R) (o : Option Exc × Registry R)
          → IsPromoted cfg.champion_alias version s o.1
          → IsPromoted cfg.champion_alias version s
              (written float cfg mlflow decided_by false reason_text decision o).1
      stored decision (none, u) k = k
      stored decision (some e, u) k = k

  evaluated-Guarded :
      (version : String) (candidate : Option String × Metrics R) (previous : Option String)
      (champ : Option (Metrics R)) (s : Registry R)
      → mlflow.metrics_for_version version ≡ value candidate
      → champion_metrics cfg mlflow (mlflow.get_model_version_by_alias s.aliases cfg.champion_alias)
        ≡ value champ
      → Guarded float cfg mlflow (value version) s (
          evaluated float cfg mlflow decided_by false reason_text version candidate previous champ
            s)
  unfolding evaluated
  evaluated-Guarded version candidate previous champ s q c =
      let d = evaluate_promotion float candidate.1 champ cfg.criteria in
      elim (Bool-cases d.approved) [
        | inl a ↦ inr (
          version,
          refl,
          record {
            run_id = candidate.0;
            candidate = candidate.1;
            champion = champ;
            measured = q;
            compared = c;
            approved = (evaluate_promotion-IsApproved float candidate.1 champ cfg.criteria).0 a;
          },
          decided-IsPromoted version candidate.0 previous d s a,
        )
        | inr a ↦ inl (unfold decided in rw a refl)
      ]

  with_champion-Guarded :
      (version : String) (candidate : Option String × Metrics R) (previous : String)
      (read : Call (Option String × Metrics R)) (s : Registry R)
      → mlflow.metrics_for_version version ≡ value candidate
      → champion_metrics cfg mlflow (mlflow.get_model_version_by_alias s.aliases cfg.champion_alias)
        ≡ metrics_of cfg mlflow read
      → Guarded float cfg mlflow (value version) s (
          with_champion float cfg mlflow decided_by false reason_text version candidate previous
            read s)
  unfolding with_champion
  with_champion-Guarded version candidate previous (value (run_id, metrics)) s q c =
      evaluated-Guarded version candidate (some previous) (some metrics) s q c
  with_champion-Guarded version candidate previous (mlflow_exception t) s q c =
      evaluated-Guarded version candidate (some previous) none s q c
  with_champion-Guarded version candidate previous (raised e) s q c = inl refl

  with_previous-Guarded :
      (version : String) (candidate : Option String × Metrics R) (read : Call String)
      (s : Registry R)
      → mlflow.metrics_for_version version ≡ value candidate
      → mlflow.get_model_version_by_alias s.aliases cfg.champion_alias ≡ read
      → Guarded float cfg mlflow
          (value version)
          s
          (with_previous float cfg mlflow decided_by false reason_text version candidate read s)
  unfolding with_previous
  with_previous-Guarded version candidate (value previous) s q c =
      with_champion-Guarded version candidate previous (mlflow.metrics_for_version previous) s q
        (ap (champion_metrics cfg mlflow) c)
  with_previous-Guarded version candidate (mlflow_exception t) s q c =
      evaluated-Guarded version candidate none none s q (ap (champion_metrics cfg mlflow) c)
  with_previous-Guarded version candidate (raised e) s q c = inl refl

  with_candidate-Guarded :
      (version : String) (read : Call (Option String × Metrics R)) (s : Registry R)
      → mlflow.metrics_for_version version ≡ read
      → Guarded float cfg mlflow
          (value version)
          s
          (with_candidate float cfg mlflow decided_by false reason_text version read s)
  unfolding with_candidate
  with_candidate-Guarded version (value candidate) s q =
      with_previous-Guarded version candidate
        (mlflow.get_model_version_by_alias s.aliases cfg.champion_alias) s q refl
  with_candidate-Guarded version (mlflow_exception t) s q = inl refl
  with_candidate-Guarded version (raised e) s q = inl refl

  with_version-Guarded :
      (read : Call String) (s : Registry R)
      → Guarded float cfg mlflow read s
          (with_version float cfg mlflow decided_by false reason_text read s)
  unfolding with_version
  with_version-Guarded (value version) s =
      with_candidate-Guarded version (mlflow.metrics_for_version version) s refl
  with_version-Guarded (mlflow_exception t) s = inl refl
  with_version-Guarded (raised e) s = inl refl

  -- A promotion that is not forced leaves the aliases, the tags and the audit rows as they were; or the
  -- metrics of the version given (of the version with the candidate's alias, where none is given) pass
  -- the criteria against the metrics of the champion (none, where an MlflowException says so), and all
  -- that changes, also where a write fails, is the champion's alias, which becomes this version, tags
  -- of this version, superseded_by of others, and audit rows of this approved version.
  pub promote-HasApproval :
      (version : Option String) (s : Registry R)
      → Guarded float cfg mlflow
          (chosen cfg mlflow version s)
          s
          (promote float cfg mlflow decided_by false reason_text version s)
  unfolding promote
  promote-HasApproval (some version) s = with_version-Guarded (value version) s
  promote-HasApproval none s =
      with_version-Guarded (mlflow.get_model_version_by_alias s.aliases cfg.candidate_alias) s
