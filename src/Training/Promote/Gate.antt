-- ===== src/Training/Promote/Gate.antt =====
-- promote.py: what a promotion needs, and the case in which it needs less than it says.
use agentic_ml_engineering_l.Base.{
  true, false, Option, none, some, ◌≡◌, refl, ◌↔◌, inl, inr, Option-cases, arith,
}
use agentic_ml_engineering_l.Base.Dict.{get}
use agentic_ml_engineering_l.Base.Equality.{string_eq}
use agentic_ml_engineering_l.Training.Promote.{
  Float, PromotionCriteria, Metrics, or_zero, floor_check, champion_check, checked,
  evaluate_promotion,
}

module _ {R : Type 0} (float : Float R) where
  -- What an approval needs of the metrics.
  pub record IsApproved (candidate : Metrics R) (champion : Option (Metrics R))
      (criteria : PromotionCriteria R) : Type 0 where
    pub acc : R
    pub auc : R
    pub has_acc : get "test_accuracy" candidate ≡ some acc
    pub has_auc : get "test_roc_auc" candidate ≡ some auc
    pub acc_floor : float.lt acc criteria.min_test_accuracy ≡ false
    pub auc_floor : float.lt auc criteria.min_test_roc_auc ≡ false
    pub tolerance :
        (metrics : Metrics R)
        → champion ≡ some metrics
        → float.lt acc
            (float.minus (or_zero float.zero (get "test_accuracy" metrics)) criteria.max_regression)
          ≡ false

  tolerated :
      (m acc : R) (champion : Option (Metrics R))
      → ((champion_check float m acc champion).0 ≡ true) ↔ (
          (metrics : Metrics R)
          → champion ≡ some metrics
          → float.lt acc (float.minus (or_zero float.zero (get "test_accuracy" metrics)) m) ≡ false)
  unfolding champion_check
  tolerated m acc none = ((λ h metrics e. absurd cc), (λ h. refl))
  tolerated m acc (some metrics) =
      ((λ h n e. ground arith), (λ h. let q = h metrics refl in ground arith))

  module _ (candidate : Metrics R) (champion : Option (Metrics R))
      (criteria : PromotionCriteria R) where
    only_if :
        (acc auc : R)
        → get "test_accuracy" candidate ≡ some acc
        → get "test_roc_auc" candidate ≡ some auc
        → (checked float candidate champion criteria (some acc) (some auc)).approved ≡ true
        → IsApproved candidate champion criteria
    unfolding checked floor_check
    only_if acc auc p q h = record {
      acc = acc;
      auc = auc;
      has_acc = p;
      has_auc = q;
      acc_floor = ground arith;
      auc_floor = ground arith;
      tolerance = (tolerated criteria.max_regression acc champion).0 (ground arith);
    }

    if_checked :
        (a : IsApproved candidate champion criteria)
        → (checked float candidate champion criteria (some a.acc) (some a.auc)).approved ≡ true
    unfolding checked floor_check
    if_checked a =
        let t = (tolerated criteria.max_regression a.acc champion).1 a.tolerance in
        let p = a.acc_floor in let q = a.auc_floor in ground arith

    approved_if :
        IsApproved candidate champion criteria
        → (evaluate_promotion float candidate champion criteria).approved ≡ true
    unfolding evaluate_promotion
    approved_if a = rw (a.has_acc, a.has_auc) (if_checked a)

    approved_only :
        (evaluate_promotion float candidate champion criteria).approved ≡ true
        → IsApproved candidate champion criteria
    unfolding evaluate_promotion
    approved_only h = elim (Option-cases (get "test_accuracy" candidate)) [
      | inl p ↦ absurd (let f = rw (p, checked) at h in cc)
      | inr (acc, p) ↦ elim (Option-cases (get "test_roc_auc" candidate)) [
        | inl q ↦ absurd (let f = rw (p, q, checked) at h in cc)
        | inr (auc, q) ↦ only_if acc auc p q (rw (p, q) at h)
      ]
    ]

    -- A promotion is approved exactly when the candidate has both metrics, each is not below its floor,
    -- and its accuracy is not below that of the champion, if there is one, by more than the tolerance.
    pub evaluate_promotion-IsApproved :
        ((evaluate_promotion float candidate champion criteria).approved ≡ true)
        ↔ IsApproved candidate champion criteria
    evaluate_promotion-IsApproved = (approved_only, approved_if)
