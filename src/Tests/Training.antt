-- ===== src/Tests/Training.antt =====
-- The promotion of version 2 over a champion that is much better, whose metrics cannot be read.
use agentic_ml_engineering_l.Base.{
  ℕ, ◌-◌, String, Bool, true, false, none, some, [], ◌∷◌, ◌≡◌, refl, ◌↔◌, ◌==◌, ltb, if◌then◌else◌,
}
use agentic_ml_engineering_l.Base.Dict.{get}
use agentic_ml_engineering_l.Base.Equality.{string_eq}
use agentic_ml_engineering_l.Training.Promote.{
  Float, PromotionDecision, Metrics, value, mlflow_exception, Registry, TrainingConfig, Mlflow,
  evaluate_promotion, promote,
}
use agentic_ml_engineering_l.Training.Promote.Gate.{IsApproved, evaluate_promotion-IsApproved}
use agentic_ml_engineering_l.Training.Promote.Approval.{Guarded, chosen, promote-HasApproval}
use agentic_ml_engineering_l.Training.Promote.Champion.{promote-unguarded}

-- Thousandths.
abbrev float : Float ℕ
float = record { lt = λ a b. ltb a b; minus = λ a b. a - b; zero = 0 }

abbrev config : TrainingConfig ℕ
config = record {
  registered_model_name = "higgs";
  candidate_alias = "candidate";
  champion_alias = "champion";
  criteria = record { min_test_accuracy = 600; min_test_roc_auc = 650; max_regression = 5 };
}

abbrev candidate : Metrics ℕ
candidate = ("test_accuracy", 700) ∷ ("test_roc_auc", 750) ∷ []

abbrev champion : Metrics ℕ
champion = ("test_accuracy", 900) ∷ []

-- The registry does not answer for version 1, the champion.
abbrev mlflow : Mlflow ℕ
mlflow = record {
  get_model_version_by_alias = λ aliases alias. value (if alias == "champion" then "1" else "2");
  metrics_for_version = λ version.
      if version == "1" then mlflow_exception "run not found" else value (some "r", candidate);
  write_error = λ n. none;
}

abbrev registry : Registry ℕ
registry = record { aliases = ("champion", "1") ∷ ("candidate", "2") ∷ []; tags = []; audit = [] }

abbrev reason_text : PromotionDecision ℕ → Bool → String
reason_text decision forced = "reasons"

evaluate_promotion-IsApproved_example :
    ((evaluate_promotion float candidate (some champion) config.criteria).approved ≡ true)
    ↔ IsApproved float candidate (some champion) config.criteria
evaluate_promotion-IsApproved_example =
    evaluate_promotion-IsApproved float candidate (some champion) config.criteria

promote-HasApproval_example :
    Guarded float config mlflow
      (chosen config mlflow none registry)
      registry
      (promote float config mlflow "ops" false reason_text none registry)
promote-HasApproval_example =
    promote-HasApproval float config mlflow "ops" reason_text none registry

floors : IsApproved float candidate none config.criteria
unfolding get
floors = record {
  acc = 700;
  auc = 750;
  has_acc = refl;
  has_auc = refl;
  acc_floor = refl;
  auc_floor = refl;
  tolerance = λ metrics e. absurd cc;
}

promote-unguarded_example :
    get "champion"
      (promote float config mlflow "ops" false reason_text (some "2") registry).1.aliases
    ≡ some "2"
promote-unguarded_example =
    promote-unguarded float config mlflow "ops" reason_text "2" "1" "run not found"
      (some "r", candidate) registry refl refl refl floors (λ n. refl)
