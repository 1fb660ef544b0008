-- ===== src/Training/Promote/Champion.antt =====
-- promote.py: a champion whose metrics cannot be read is taken for none.
use agentic_ml_engineering_l.Base.{
  ℕ, suc, String, Bool, true, false, Option, none, some, List, [], ◌∷◌, ◌++◌, ◌==◌, ==_refl, ◌≡◌,
  refl, ap, ◌∙◌, inl, inr, Exc, Result, ok, Bool-cases,
}
use agentic_ml_engineering_l.Base.Dict.{get, get-put}
use agentic_ml_engineering_l.Base.Equality.{string_eq}
use agentic_ml_engineering_l.Training.Promote.{
  Float, Metrics, PromotionDecision, value, mlflow_exception, Registry, TrainingConfig, Mlflow,
  write_all, set_alias, set_tag, add_promotion, superseded, writes, written, decided, evaluated,
  with_champion, with_previous, with_candidate, with_version, promote,
}
use agentic_ml_engineering_l.Training.Promote.Gate.{IsApproved, evaluate_promotion-IsApproved}

module _ {R : Type 0} where
  abbrev applied : List (Registry R → Registry R) → Registry R → Registry R
  applied [] s = s
  applied (w ∷ ws) s = applied ws (w s)

  write_all_calm :
      (errors : ℕ → Option Exc) (n : ℕ) (ws : List (Registry R → Registry R)) (s : Registry R)
      → ((k : ℕ) → errors k ≡ none)
      → write_all errors n ws s ≡ (none, applied ws s)
  unfolding write_all
  write_all_calm errors n [] s calm = refl
  write_all_calm errors n (w ∷ ws) s calm =
      rw (write_all, calm n) (write_all_calm errors (suc n) ws (w s) calm)

  superseded_aliases :
      (previous : Option String) (version : String) (rest : List (Registry R → Registry R))
      (s : Registry R)
      → ((u : Registry R) → (applied rest u).aliases ≡ u.aliases)
      → (applied (superseded previous version ++ rest) s).aliases ≡ s.aliases
  unfolding superseded set_tag
  superseded_aliases none version rest s h = h s
  superseded_aliases (some previous) version rest s h = elim (Bool-cases (previous == version)) [
    | inl e ↦ rw e (h s)
    | inr e ↦ rw e (h _)
  ]

module _ {R : Type 0} (float : Float R) (cfg : TrainingConfig R) (mlflow : Mlflow R)
    (decided_by : String) (reason_text : PromotionDecision R → Bool → String) where
  writes_alias :
      (version : String) (run_id previous : Option String) (decision : PromotionDecision R)
      (s : Registry R)
      → get cfg.champion_alias
          (applied
            (writes float cfg mlflow decided_by false reason_text version run_id previous decision)
            s).aliases
        ≡ some version
  unfolding writes set_alias set_tag add_promotion
  writes_alias version run_id previous decision s =
      ap (get cfg.champion_alias) (superseded_aliases previous version _ _ (λ u. refl))
      ∙ get-put cfg.champion_alias cfg.champion_alias version s.aliases
      ∙ (rw (==_refl cfg.champion_alias) refl)

  approved_writes :
      (version : String) (run_id previous : Option String) (decision : PromotionDecision R)
      (s : Registry R)
      → decision.approved ≡ true
      → ((n : ℕ) → mlflow.write_error n ≡ none)
      → decided float cfg mlflow decided_by false reason_text version run_id previous decision s ≡ (
        ok decision,
        applied
            (writes float cfg mlflow decided_by false reason_text version run_id previous decision)
            s,
      )
  unfolding decided written
  approved_writes version run_id previous decision s a calm =
      simp
        (
          a,
          write_all_calm mlflow.write_error 0
              (writes float cfg mlflow decided_by false reason_text version run_id previous
                decision)
              s calm,
        )
        refl

  -- Where a champion is set and the read of its metrics raises an MlflowException, a candidate that
  -- passes the floors is approved and becomes the champion, whatever the champion's accuracy is.
  pub promote-unguarded :
      (version previous t : String) (candidate : Option String × Metrics R) (s : Registry R)
      → mlflow.metrics_for_version version ≡ value candidate
      → mlflow.get_model_version_by_alias s.aliases cfg.champion_alias ≡ value previous
      → mlflow.metrics_for_version previous ≡ mlflow_exception t
      → IsApproved float candidate.1 none cfg.criteria
      → ((n : ℕ) → mlflow.write_error n ≡ none)
      → get cfg.champion_alias
          (promote float cfg mlflow decided_by false reason_text (some version) s).1.aliases
        ≡ some version
  unfolding promote with_version
  promote-unguarded version previous t candidate s p q r a calm =
      rw (p, with_candidate, q, with_previous, r, with_champion, evaluated)
        (ap (λ (o : Result (PromotionDecision R) × Registry R). get cfg.champion_alias o.1.aliases)
            (approved_writes version candidate.0 (some previous) _ s
              ((evaluate_promotion-IsApproved float candidate.1 none cfg.criteria).1 a) calm)
          ∙ writes_alias version candidate.0 (some previous) _ s)
