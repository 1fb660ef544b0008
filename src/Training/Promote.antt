-- ===== src/Training/Promote.antt =====
-- promote.py: the criteria of a promotion, and the promotion with its audit row. R: Python's float.
pub mod Gate
pub mod Changes
pub mod Approval
pub mod Champion
use agentic_ml_engineering_l.Base.{
  ℕ, suc, String, Bool, true, false, not, ◌&&◌, ◌||◌, Option, none, some, List, [], ◌∷◌, ◌++◌, ◌==◌,
  if◌then◌else◌, Exc, Result, ok, raise, other_exception,
}
use agentic_ml_engineering_l.Base.Dict.{Dict, get, put}
use agentic_ml_engineering_l.Base.Equality.{string_eq, pair_eq}

-- `<`, `-` and 0.0 of float.
pub record Float (R : Type 0) : Type 0 where
  pub lt : R → R → Bool
  pub minus : R → R → R
  pub zero : R

pub record PromotionCriteria (R : Type 0) : Type 0 where
  pub min_test_accuracy : R
  pub min_test_roc_auc : R
  pub max_regression : R

abbrev pub Metrics : Type 0 → Type 0
Metrics R = Dict String R

-- The reasons, without their layout as text.
pub data Reason (R : Type 0) : Type 0 where
  missing_metrics : Reason R
  accuracy_below accuracy_cleared roc_auc_below roc_auc_cleared : R → R → Reason R
  first_promotion : Reason R
  regresses within_tolerance : R → R → Reason R

pub record PromotionDecision (R : Type 0) : Type 0 where
  pub approved : Bool
  pub reasons : List (Reason R)
  pub candidate_metrics : Metrics R
  pub champion_metrics : Option (Metrics R)
  pub criteria : PromotionCriteria R

abbrev pub or_zero {ℓ} : {R : Type ℓ} → R → Option R → R
or_zero zero none = zero
or_zero zero (some v) = v

module _ {R : Type 0} (float : Float R) where
  -- One check: whether it is passed, and its reason.
  floor_check : (R → R → Reason R) → (R → R → Reason R) → R → R → Bool × Reason R
  floor_check below cleared v floor =
      if float.lt v floor then (false, below v floor) else (true, cleared v floor)

  champion_check : R → R → Option (Metrics R) → Bool × Reason R
  unfolding get
  champion_check max_regression acc none = (true, first_promotion)
  champion_check max_regression acc (some champion) =
      let champ_acc = or_zero float.zero (get "test_accuracy" champion) in
      if float.lt acc (float.minus champ_acc max_regression)
      then (false, regresses acc champ_acc)
      else (true, within_tolerance acc champ_acc)

  checked :
      Metrics R
      → Option (Metrics R)
      → PromotionCriteria R
      → Option R
      → Option R
      → PromotionDecision R
  unfolding floor_check champion_check
  checked candidate champion criteria (some acc) (some auc) =
      let a = floor_check accuracy_below accuracy_cleared acc criteria.min_test_accuracy in
      let b = floor_check roc_auc_below roc_auc_cleared auc criteria.min_test_roc_auc in
      let c = champion_check criteria.max_regression acc champion in
      record {
        approved = a.0 && b.0 && c.0;
        reasons = a.1 ∷ b.1 ∷ c.1 ∷ [];
        candidate_metrics = candidate;
        champion_metrics = champion;
        criteria = criteria;
      }
  checked candidate champion criteria acc auc = record {
    approved = false;
    reasons = missing_metrics ∷ [];
    candidate_metrics = candidate;
    champion_metrics = champion;
    criteria = criteria;
  }

  unfoldable pub evaluate_promotion :
      Metrics R → Option (Metrics R) → PromotionCriteria R → PromotionDecision R
  unfolding checked
  evaluate_promotion candidate champion criteria =
      checked candidate champion criteria (get "test_accuracy" candidate)
        (get "test_roc_auc" candidate)

-- A call of MLflow.
pub data Call (A : Type 0) : Type 0 where
  value : A → Call A
  mlflow_exception : String → Call A
  raised : Exc → Call A

pub record ModelPromotion (R : Type 0) : Type 0 where
  pub model_name : String
  pub version : String
  pub run_id : Option String
  pub from_alias : String
  pub to_alias : String
  pub previous_champion_version : Option String
  pub decided_by : String
  pub decision : PromotionDecision R
  pub forced : Bool

-- The registry's aliases and tags of one model, and the audit table.
pub record Registry (R : Type 0) : Type 0 where
  pub aliases : Dict String String
  pub tags : Dict (String × String) String
  pub audit : List (ModelPromotion R)

pub record TrainingConfig (R : Type 0) : Type 0 where
  pub registered_model_name : String
  pub candidate_alias : String
  pub champion_alias : String
  pub criteria : PromotionCriteria R

-- What the reads give, and what the n-th write raises, the audit row's transaction included.
-- `metrics_for_version` is _metrics_for_version.
pub record Mlflow (R : Type 0) : Type 0 where
  pub get_model_version_by_alias : Dict String String → String → Call String
  pub metrics_for_version : String → Call (Option String × Metrics R)
  pub write_error : ℕ → Option Exc

module _ {R : Type 0} where
  -- The writes in their order, until one raises.
  unfoldable pub write_all :
      (ℕ → Option Exc) → ℕ → List (Registry R → Registry R) → Registry R → Option Exc × Registry R
  write_all errors n [] s = (none, s)
  write_all errors n (w ∷ writes) s = elim (errors n) [
    | some e ↦ (some e, s)
    | none ↦ write_all errors (suc n) writes (w s)
  ]

  unfoldable pub set_alias : String → String → Registry R → Registry R
  unfolding put
  set_alias alias version s = record s { aliases = put alias version s.aliases }

  unfoldable pub set_tag : String → String → String → Registry R → Registry R
  unfolding put
  set_tag version key v s = record s { tags = put (version, key) v s.tags }

  unfoldable pub add_promotion : ModelPromotion R → Registry R → Registry R
  add_promotion p s = record s { audit = s.audit ++ p ∷ [] }

  -- `if previous is not None and previous != version`
  superseded : Option String → String → List (Registry R → Registry R)
  unfolding set_tag
  superseded none version = []
  superseded (some previous) version =
      if previous == version then [] else set_tag previous "superseded_by" version ∷ []

module _ {R : Type 0} (float : Float R) (cfg : TrainingConfig R) (mlflow : Mlflow R)
    (decided_by : String) (force : Bool) where
  -- Python's `"; ".join(...)` of the reasons.
  module _ (reason_text : PromotionDecision R → Bool → String) where
    writes :
        String
        → Option String
        → Option String
        → PromotionDecision R
        → List (Registry R → Registry R)
    unfolding set_alias set_tag superseded add_promotion
    writes version run_id previous decision =
        let forced = force && not decision.approved in
        set_alias cfg.champion_alias version
          ∷ set_tag version "promoted_by" decided_by
          ∷ set_tag version "promotion_reason" (reason_text decision forced)
          ∷ superseded previous version
        ++ add_promotion (record {
          model_name = cfg.registered_model_name;
          version = version;
          run_id = run_id;
          from_alias = cfg.candidate_alias;
          to_alias = cfg.champion_alias;
          previous_champion_version = previous;
          decided_by = decided_by;
          decision = decision;
          forced = forced;
        })
          ∷ []

    written :
        PromotionDecision R → Option Exc × Registry R → Result (PromotionDecision R) × Registry R
    written decision (none, s) = (ok decision, s)
    written decision (some e, s) = (raise e, s)

    decided :
        String
        → Option String
        → Option String
        → PromotionDecision R
        → Registry R
        → Result (PromotionDecision R) × Registry R
    unfolding writes written write_all
    decided version run_id previous decision s =
        if not decision.approved && not force
        then (ok decision, s)
        else written decision
            (write_all mlflow.write_error 0 (writes version run_id previous decision) s)

    evaluated :
        String
        → Option String × Metrics R
        → Option String
        → Option (Metrics R)
        → Registry R
        → Result (PromotionDecision R) × Registry R
    unfolding decided evaluate_promotion
    evaluated version candidate previous champ_metrics s =
        decided version candidate.0 previous
          (evaluate_promotion float candidate.1 champ_metrics cfg.criteria) s

    -- The metrics of the champion; an MlflowException is caught, `previous` stays set.
    with_champion :
        String
        → Option String × Metrics R
        → String
        → Call (Option String × Metrics R)
        → Registry R
        → Result (PromotionDecision R) × Registry R
    unfolding evaluated
    with_champion version candidate previous (value (run_id, metrics)) s =
        evaluated version candidate (some previous) (some metrics) s
    with_champion version candidate previous (mlflow_exception t) s =
        evaluated version candidate (some previous) none s
    with_champion version candidate previous (raised e) s = (raise e, s)

    with_previous :
        String
        → Option String × Metrics R
        → Call String
        → Registry R
        → Result (PromotionDecision R) × Registry R
    unfolding with_champion
    with_previous version candidate (value previous) s =
        with_champion version candidate previous (mlflow.metrics_for_version previous) s
    with_previous version candidate (mlflow_exception t) s = evaluated version candidate none none s
    with_previous version candidate (raised e) s = (raise e, s)

    with_candidate :
        String
        → Call (Option String × Metrics R)
        → Registry R
        → Result (PromotionDecision R) × Registry R
    unfolding with_previous
    with_candidate version (value candidate) s =
        with_previous version candidate
          (mlflow.get_model_version_by_alias s.aliases cfg.champion_alias) s
    with_candidate version (mlflow_exception t) s = (raise (other_exception t), s)
    with_candidate version (raised e) s = (raise e, s)

    with_version : Call String → Registry R → Result (PromotionDecision R) × Registry R
    unfolding with_candidate
    with_version (value version) s = with_candidate version (mlflow.metrics_for_version version) s
    with_version (mlflow_exception t) s = (raise (other_exception t), s)
    with_version (raised e) s = (raise e, s)

    unfoldable pub promote : Option String → Registry R → Result (PromotionDecision R) × Registry R
    unfolding with_version
    promote (some version) s = with_version (value version) s
    promote none s =
        with_version (mlflow.get_model_version_by_alias s.aliases cfg.candidate_alias) s
