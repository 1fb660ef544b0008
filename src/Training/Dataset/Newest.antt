-- ===== src/Training/Dataset/Newest.antt =====
-- dataset.py, load_entity_df: "the most recent max_rows when capped".
use mathlib.Core.List.{Permᴰ, append-nil}
use agentic_ml_engineering_l.Base.{
  ℕ, zero, suc, ◌≤◌, ◌<◌, Option, List, [], ◌∷◌, ◌++◌, All, In, map, true, none, some, take, drop,
  take-append-drop, length, length-take, min, ltb, ◌≡◌, refl, sym, ap, subst, ◌∙◌, ok, Bool-cases,
  inl, inr, arith, ◌⊎◌,
}
use agentic_ml_engineering_l.Base.Perm.{Perm-nonempty, Perm-middle}
use agentic_ml_engineering_l.Db.Models.{CuratedHiggsLabel}
use agentic_ml_engineering_l.Training.Dataset.{
  Entity, IsDescending, Descending, entity, until, labelled, limit, some_rows, load_entity_df,
}

-- No row of the second list is later than a row of the first.
abbrev pub NotLater : List Entity → List Entity → Type 0
NotLater newer older =
    All (λ (e : Entity). All (λ (f : Entity). f.event_timestamp ≤ e.event_timestamp) older) newer

All-append_right : (P : Entity → Type 0) (xs ys : List Entity) → All P (xs ++ ys) → All P ys
All-append_right P [] ys h = h
All-append_right P (x ∷ xs) ys h = All-append_right P xs ys h.1

IsDescending-append : (xs ys : List Entity) → IsDescending (xs ++ ys) → NotLater xs ys
IsDescending-append [] ys h = tt
IsDescending-append (x ∷ xs) ys h = (All-append_right _ xs ys h.0, IsDescending-append xs ys h.1)

NotLater-nil : (xs : List Entity) → NotLater xs []
NotLater-nil [] = tt
NotLater-nil (x ∷ xs) = (tt, NotLater-nil xs)

-- The rows that are left out, none of them later than a row that is taken.
unfoldable pub IsNewest : ℕ → List Entity → List Entity → Type 0
IsNewest max_rows all rows =
    (rest : List Entity) × Permᴰ all (rows ++ rest)
    × NotLater rows rest
    × ((rest ≡ []) ⊎ ((0 < max_rows) × (length rows ≡ min max_rows (length (rows ++ rest)))))

limit-IsNewest :
    (max_rows : ℕ) (all es : List Entity)
    → Permᴰ all es
    → IsDescending es
    → IsNewest max_rows all (limit max_rows es)
unfolding limit IsNewest
limit-IsNewest max_rows all es p d = elim (Bool-cases (ltb 0 max_rows)) [
  | inl e ↦
      let whole = take-append-drop max_rows es in
      rw e (
        drop max_rows es,
        subst (λ l. Permᴰ all l) (sym whole) p,
        IsDescending-append (take max_rows es) (drop max_rows es)
            (subst IsDescending (sym whole) d),
        inr (ground arith, length-take max_rows es ∙ ap (λ l. min max_rows (length l)) (sym whole)),
      )
  | inr e ↦ rw e ([], subst (λ l. Permᴰ all l) (sym (append-nil es)) p, NotLater-nil es, inl refl)
]

some_rows_lem : (es rows : List Entity) → some_rows es ≡ ok rows → es ≡ rows
some_rows_lem [] rows h = absurd cc
some_rows_lem (e ∷ es) rows h = cc

some_rows-raise : (es : List Entity) → ¬ (es ≡ []) → some_rows es ≡ ok es
some_rows-raise [] h = absurd (h refl)
some_rows-raise (e ∷ es) h = refl

limit-nonempty : (max_rows : ℕ) (es : List Entity) → ¬ (es ≡ []) → ¬ (limit max_rows es ≡ [])
unfolding limit
limit-nonempty max_rows [] h q = absurd (h refl)
limit-nonempty zero (e ∷ es) h q = cc
limit-nonempty (suc n) (e ∷ es) h q = elim (Bool-cases (ltb 0 (suc n))) [
  | inl c ↦ let k = rw c at q in cc
  | inr c ↦ absurd (ground arith)
]

-- A label up to `as_of`, where there is one.
abbrev pub IsUntil : Option ℕ → CuratedHiggsLabel → Type 0
IsUntil none l = Unit
IsUntil (some as_of) l = l.label_timestamp ≤ as_of

-- The rows of exactly the labels up to `as_of`.
pub record IsSelected (as_of : Option ℕ) (labels : List CuratedHiggsLabel) (rows : List Entity)
    : Type 0 where
  pub chosen : List CuratedHiggsLabel
  pub others : List CuratedHiggsLabel
  pub split : Permᴰ labels (chosen ++ others)
  pub in_time : All (IsUntil as_of) chosen
  pub too_late : All (λ l. ¬ IsUntil as_of l) others
  pub same_rows : map entity chosen ≡ rows

until-IsUntil :
    (as_of : Option ℕ) (l : CuratedHiggsLabel)
    → until as_of l.label_timestamp ≡ true
    → IsUntil as_of l
until-IsUntil none l h = tt
until-IsUntil (some as_of) l h = ground arith

IsUntil-until :
    (as_of : Option ℕ) (l : CuratedHiggsLabel)
    → IsUntil as_of l
    → until as_of l.label_timestamp ≡ true
IsUntil-until none l h = refl
IsUntil-until (some as_of) l h = ground arith

labelled-IsSelected :
    (as_of : Option ℕ) (labels : List CuratedHiggsLabel)
    → IsSelected as_of labels (labelled as_of labels)
unfolding labelled
labelled-IsSelected as_of [] = record {
  chosen = [];
  others = [];
  split = Permᴰ.nil;
  in_time = tt;
  too_late = tt;
  same_rows = refl;
}
labelled-IsSelected as_of (l ∷ labels) =
    let rest = labelled-IsSelected as_of labels in
    elim (Bool-cases (until as_of l.label_timestamp)) [
      | inl e ↦ rw e (record {
        chosen = l ∷ rest.chosen;
        others = rest.others;
        split = Permᴰ.cons refl rest.split;
        in_time = (until-IsUntil as_of l e, rest.in_time);
        too_late = rest.too_late;
        same_rows = ap (◌∷◌ (entity l)) rest.same_rows;
      })
      | inr e ↦ rw e (record {
        chosen = rest.chosen;
        others = l ∷ rest.others;
        split = Permᴰ.trans (Permᴰ.cons refl rest.split) (Perm-middle l rest.chosen rest.others);
        in_time = rest.in_time;
        too_late = ((λ h. let t = IsUntil-until as_of l h in absurd cc), rest.too_late);
        same_rows = rest.same_rows;
      })
    ]

labelled-nonempty :
    (as_of : Option ℕ) (labels : List CuratedHiggsLabel) (l : CuratedHiggsLabel)
    → In l labels
    → IsUntil as_of l
    → ¬ (labelled as_of labels ≡ [])
unfolding labelled
labelled-nonempty as_of [] l i h = elim i [ ]
labelled-nonempty as_of (k ∷ labels) l i h = elim (Bool-cases (until as_of k.label_timestamp)) [
  | inl e ↦ rw e (λ q. cc)
  | inr e ↦ rw e (elim i [
    | inl q ↦ let t = IsUntil-until as_of k (subst (IsUntil as_of) q h) in absurd cc
    | inr j ↦ labelled-nonempty as_of labels l j h
  ])
]

-- What a result is: rows among those of all labels up to `as_of`, the newest of them.
abbrev pub IsLoaded : ℕ → Option ℕ → List CuratedHiggsLabel → List Entity → Type 0
IsLoaded max_rows as_of labels rows =
    (all : List Entity) × IsSelected as_of labels all × IsNewest max_rows all rows

module _ (sql : Descending) where
  -- load_entity_df returns where some label is not after `as_of`. What it returns are rows of the labels
  -- whose label_timestamp is at most `as_of` (of all labels where `as_of` is None); none of those left
  -- out is later than one returned, and labels are left out only where max_rows is positive and that
  -- many are returned.
  pub load_entity_df-IsNewest :
      (max_rows : ℕ) (as_of : Option ℕ) (labels : List CuratedHiggsLabel)
      → ((rows : List Entity)
          → load_entity_df sql max_rows as_of labels ≡ ok rows
          → IsLoaded max_rows as_of labels rows)
        × ((l : CuratedHiggsLabel)
            → In l labels
            → IsUntil as_of l
            → (rows : List Entity) × (load_entity_df sql max_rows as_of labels ≡ ok rows))
  unfolding load_entity_df
  load_entity_df-IsNewest max_rows as_of labels =
      let es = labelled as_of labels in
      let selected = labelled-IsSelected as_of labels in
      (
        λ rows h.
            let newest = subst (IsNewest max_rows es) (some_rows_lem _ rows h) (
              limit-IsNewest max_rows es (sql.order es) (sql.order-Perm es)
                (sql.order-IsDescending es)) in
            (es, selected, newest),
        λ l i h. (
          limit max_rows (sql.order es),
          some_rows-raise _ (
              limit-nonempty max_rows (sql.order es) (
                Perm-nonempty es (sql.order es) (sql.order-Perm es)
                  (labelled-nonempty as_of labels l i h))),
        ),
      )
