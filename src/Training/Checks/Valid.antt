-- ===== src/Training/Checks/Valid.antt =====
-- steps.py, `validate_training_dataset`: what a frame that passes is.
use agentic_ml_engineering_l.Base.{
  ℕ, ◌≤◌, String, Bool, true, false, is_some, List, [], ◌∷◌, ◌++◌, All, length, ltb, ◌≡◌, refl, ◌↔◌,
  ◌⊎◌, inl, inr, Bool-cases, arith, ok, raise, if◌then◌else◌, value_error,
}
use agentic_ml_engineering_l.Schemas.Features.{higgs_feature_names, member}
use agentic_ml_engineering_l.Training.{Row, Frame, Arithmetic}
use agentic_ml_engineering_l.Training.Checks.{
  Problem, Report, Labels, absent, has_nan, nan_columns, label_of, binary, majority, row_problems,
  nan_problems, column_problems, balance_problems, target_problems, problems_with, problems_of,
  no_problem, report_of, validate_training_dataset,
}

module _ {R : Type 0} (num : Arithmetic R) (labels : Labels R) (min_rows : ℕ) (most : R) where
  -- Columns, cells and labels of a frame that can be trained on.
  abbrev pub HasColumns : List String → List String → Type 0
  HasColumns columns cs = All (λ c. member c columns ≡ true) cs

  abbrev pub HasCells : List (Row R) → List String → Type 0
  HasCells rows cs = All (λ c. All (λ (r : Row R). is_some (r.cell c) ≡ true) rows) cs

  abbrev pub HasLabels : List (Row R) → Type 0
  HasLabels rows =
      All (λ (r : Row R). label_of num labels min_rows most (r.cell "target") ≡ true) rows

  -- The share of the larger class is within the bound, where there is a row.
  abbrev pub IsBalanced : List (Row R) → Type 0
  IsBalanced [] = Unit
  IsBalanced (r ∷ rs) =
      num.lt most (majority num labels min_rows most (labels.mean (r ∷ rs))) ≡ false

  abbrev pub IsTrainable : List String → Frame R → Type 0
  IsTrainable names df =
      (min_rows ≤ length df.rows)
      × HasColumns df.columns names
      × HasCells df.rows names
      × (member "target" df.columns ≡ true)
      × HasLabels df.rows
      × IsBalanced df.rows

  absent_lem :
      (columns cs : List String)
      → (absent num labels min_rows most columns cs ≡ []) ↔ HasColumns columns cs
  unfolding absent
  absent_lem columns [] = ((λ _. tt), (λ _. refl))
  absent_lem columns (c ∷ cs) = elim (Bool-cases (member c columns)) [
    | inl e ↦ let (f, g) = absent_lem columns cs in rw e ((λ h. (refl, f h)), (λ h. g h.1))
    | inr e ↦ rw e ((λ h. absurd cc), (λ h. absurd cc))
  ]

  has_nan_lem :
      (c : String) (rows : List (Row R))
      → (has_nan num labels min_rows most c rows ≡ false)
        ↔ All (λ (r : Row R). is_some (r.cell c) ≡ true) rows
  unfolding has_nan
  has_nan_lem c [] = ((λ _. tt), (λ _. refl))
  has_nan_lem c (r ∷ rs) = elim (Bool-cases (is_some (r.cell c))) [
    | inl e ↦ let (f, g) = has_nan_lem c rs in rw e ((λ h. (refl, f h)), (λ h. g h.1))
    | inr e ↦ rw e ((λ h. absurd cc), (λ h. absurd cc))
  ]

  nan_columns_lem :
      (rows : List (Row R)) (cs : List String)
      → (nan_columns num labels min_rows most rows cs ≡ []) ↔ HasCells rows cs
  unfolding nan_columns
  nan_columns_lem rows [] = ((λ _. tt), (λ _. refl))
  nan_columns_lem rows (c ∷ cs) = elim (Bool-cases (has_nan num labels min_rows most c rows)) [
    | inl e ↦
        let (f, g) = has_nan_lem c rows in
        rw e ((λ h. absurd cc), (λ h. absurd (let k = g h.0 in cc)))
    | inr e ↦
        let (f, g) = nan_columns_lem rows cs in
        let (f', g') = has_nan_lem c rows in rw e ((λ h. (f' e, f h)), (λ h. g h.1))
  ]

  binary_lem :
      (rows : List (Row R)) → (binary num labels min_rows most rows ≡ true) ↔ HasLabels rows
  unfolding binary
  binary_lem [] = ((λ _. tt), (λ _. refl))
  binary_lem (r ∷ rs) = elim (Bool-cases (label_of num labels min_rows most (r.cell "target"))) [
    | inl e ↦ let (f, g) = binary_lem rs in rw e ((λ h. (refl, f h)), (λ h. g h.1))
    | inr e ↦ rw e ((λ h. absurd cc), (λ h. absurd cc))
  ]

  abbrev Passes : List (Problem R) → Type 0
  Passes ps = no_problem num labels min_rows most ps ≡ true

  Passes-append : (ps qs : List (Problem R)) → Passes (ps ++ qs) ↔ (Passes ps × Passes qs)
  Passes-append [] qs = ((λ h. (refl, h)), (λ h. h.1))
  Passes-append (p ∷ ps) qs = ((λ h. absurd cc), (λ h. absurd (let k = h.0 in cc)))

  row_problems_lem :
      (df : Frame R)
      → Passes (row_problems num labels min_rows most df) ↔ (min_rows ≤ length df.rows)
  unfolding row_problems
  row_problems_lem df = elim (Bool-cases (ltb (length df.rows) min_rows)) [
    | inl e ↦ rw e ((λ h. absurd cc), (λ h. absurd (ground arith)))
    | inr e ↦ rw e ((λ h. ground arith), (λ h. refl))
  ]

  nan_problems_lem :
      (cs : List String) → Passes (nan_problems num labels min_rows most cs) ↔ (cs ≡ [])
  unfolding nan_problems
  nan_problems_lem [] = ((λ h. refl), (λ h. refl))
  nan_problems_lem (c ∷ cs) = ((λ h. absurd cc), (λ h. absurd cc))

  column_problems_lem :
      (names missing : List String) (df : Frame R)
      → Passes (column_problems num labels min_rows most names missing df)
        ↔ ((missing ≡ []) × HasCells df.rows names)
  unfolding column_problems
  column_problems_lem names [] df =
      let (f, g) = nan_problems_lem (nan_columns num labels min_rows most df.rows names) in
      let (f', g') = nan_columns_lem df.rows names in ((λ h. (refl, f' (f h))), (λ h. g (g' h.1)))
  column_problems_lem names (c ∷ cs) df = ((λ h. absurd cc), (λ h. absurd (let k = h.0 in cc)))

  balance_problems_lem :
      (rows : List (Row R))
      → Passes (balance_problems num labels min_rows most rows) ↔ IsBalanced rows
  unfolding balance_problems
  balance_problems_lem [] = ((λ _. tt), (λ _. refl))
  balance_problems_lem (r ∷ rs) =
      elim (Bool-cases (num.lt most (majority num labels min_rows most (labels.mean (r ∷ rs))))) [
        | inl e ↦ rw e ((λ h. absurd cc), (λ h. absurd cc))
        | inr e ↦ rw e ((λ h. refl), (λ h. refl))
      ]

  target_problems_lem :
      (df : Frame R)
      → Passes (target_problems num labels min_rows most df)
        ↔ ((member "target" df.columns ≡ true) × HasLabels df.rows × IsBalanced df.rows)
  unfolding target_problems
  target_problems_lem df =
      let (f, g) = binary_lem df.rows in
      let (f', g') = balance_problems_lem df.rows in
      elim (Bool-cases (member "target" df.columns)) [
        | inl e ↦ elim (Bool-cases (binary num labels min_rows most df.rows)) [
          | inl b ↦ rw (e, b) ((λ h. (refl, f b, f' h)), (λ h. g' h.2))
          | inr b ↦ rw (e, b) ((λ h. absurd cc), (λ h. absurd (let k = g h.1 in cc)))
        ]
        | inr e ↦ rw e ((λ h. absurd cc), (λ h. absurd (let k = h.0 in cc)))
      ]

  problems_with_lem :
      (names : List String) (df : Frame R)
      → Passes (problems_with num labels min_rows most names df) ↔ IsTrainable names df
  unfolding problems_with
  problems_with_lem names df =
      let rows = row_problems num labels min_rows most df in
      let missing = absent num labels min_rows most df.columns names in
      let columns = column_problems num labels min_rows most names missing df in
      let target = target_problems num labels min_rows most df in
      let (a, b) = Passes-append rows (columns ++ target) in
      let (c, d) = Passes-append columns target in
      let (r, r') = row_problems_lem df in
      let (m, m') = absent_lem df.columns names in
      let (n, n') = column_problems_lem names missing df in
      let (t, t') = target_problems_lem df in
      (
        (λ h.
            let (hr, hct) = a h in
            let (hc, ht) = c hct in
            let (missing_nil, cells) = n hc in
            let (has, labelled, balanced) = t ht in
            (r hr, m missing_nil, cells, has, labelled, balanced)),
        (λ h. b (r' h.0, d (n' (m' h.1, h.2), t' (h.3, h.4, h.5)))),
      )

  -- What is returned or raised, by whether the report is valid.
  outcome :
      {P : Type 0} (b : Bool) (report : Report R)
      → ((b ≡ true) ↔ P)
      → let out =
          if b then ok report else raise (value_error "training dataset failed validation") in
        ((out ≡ ok report) ↔ P)
        × ((out ≡ ok report) ⊎ (out ≡ raise (value_error "training dataset failed validation")))
  outcome true report (f, g) = (((λ h. f refl), (λ p. refl)), inl refl)
  outcome false report (f, g) = (((λ h. absurd cc), (λ p. absurd (let k = g p in cc))), inr refl)

  -- validate_training_dataset returns its report exactly where the frame has min_rows rows and the 28
  -- columns without a NaN, a column of labels that are all 0 or 1, and, unless it is empty, no class
  -- with more than the greatest share; it raises otherwise.
  pub validate_training_dataset-IsTrainable :
      (df : Frame R)
      → let out = validate_training_dataset num labels min_rows most df in
        ((out.0 ≡ ok out.1) ↔ IsTrainable higgs_feature_names df)
        × ((out.0 ≡ ok out.1) ⊎ (out.0 ≡ raise (value_error "training dataset failed validation")))
  unfolding validate_training_dataset report_of problems_of
  validate_training_dataset-IsTrainable df =
      outcome
        (no_problem num labels min_rows most
          (problems_with num labels min_rows most higgs_feature_names df))
        (report_of num labels min_rows most df) (problems_with_lem higgs_feature_names df)
