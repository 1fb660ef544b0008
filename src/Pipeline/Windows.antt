-- ===== src/Pipeline/Windows.antt =====
-- higgs_pipeline_tasks.py, `materialize_windows`, and ml/feature_repo/scripts/materialize.py,
-- `windows`, the same function: the time windows of a chunked materialization.
use agentic_ml_engineering_l.Base.{
  ℕ, ◌≤◌, ◌<◌, ◌&&◌, List, [], ◌∷◌, ◌++◌, In, All, ◌≡◌, refl, inl, inr, ltb, if◌then◌else◌,
  Bool-cases, ltb→lt, arith,
}
use native.Mathlib.Decide.{dec_le}

-- [b for b in boundaries if start < b < end]
unfoldable pub interior : ℕ → ℕ → List ℕ → List ℕ
interior start end [] = []
interior start end (b ∷ bs) =
    let rest = interior start end bs in if ltb start b && ltb b end then b ∷ rest else rest

-- [(lo, hi) for lo, hi in zip(edges, edges[1:]) if lo < hi], where the first edge is given apart.
unfoldable pub adjacent : ℕ → List ℕ → List (ℕ × ℕ)
adjacent lo [] = []
adjacent lo (hi ∷ edges) =
    let rest = adjacent hi edges in if ltb lo hi then (lo, hi) ∷ rest else rest

unfoldable pub materialize_windows : ℕ → ℕ → List ℕ → List (ℕ × ℕ)
unfolding interior adjacent
materialize_windows start end boundaries =
    adjacent start (interior start end boundaries ++ end ∷ [])

-- The windows lead from one time to another, each from where the one before it ends.
abbrev pub Tiles : ℕ → List (ℕ × ℕ) → ℕ → Type 0
Tiles lo [] end = lo ≡ end
Tiles lo ((a, b) ∷ windows) end = (a ≡ lo) × (lo < b) × Tiles b windows end

-- Every element is at least the one before it.
abbrev pub Ascending : ℕ → List ℕ → Type 0
Ascending lo [] = Unit
Ascending lo (b ∷ bs) = (lo ≤ b) × Ascending b bs

Ascending-weaken : (lo lo' : ℕ) (bs : List ℕ) → lo' ≤ lo → Ascending lo bs → Ascending lo' bs
Ascending-weaken lo lo' [] h a = tt
Ascending-weaken lo lo' (b ∷ bs) h a = (omega arith, a.1)

interior-Ascending :
    (lo start end : ℕ) (bs : List ℕ) → Ascending lo bs → Ascending lo (interior start end bs)
unfolding interior
interior-Ascending lo start end [] a = tt
interior-Ascending lo start end (b ∷ bs) a = elim (Bool-cases (ltb start b && ltb b end)) [
  | inl e ↦ rw e (a.0, interior-Ascending b start end bs a.1)
  | inr e ↦ rw e (interior-Ascending lo start end bs (Ascending-weaken b lo bs a.0 a.1))
]

interior_between :
    (start end : ℕ) (bs : List ℕ) → All (λ b. (start < b) × (b < end)) (interior start end bs)
unfolding interior
interior_between start end [] = tt
interior_between start end (b ∷ bs) = elim (Bool-cases (ltb start b && ltb b end)) [
  | inl e ↦ rw e ((ground arith, ground arith), interior_between start end bs)
  | inr e ↦ rw e (interior_between start end bs)
]

Ascending-above :
    (lo start end : ℕ) (es : List ℕ)
    → Ascending lo es
    → All (λ b. (start < b) × (b < end)) es
    → Ascending start es
Ascending-above lo start end [] a between = tt
Ascending-above lo start end (b ∷ es) a between = (omega arith, a.1)

adjacent-Tiles :
    (lo start end : ℕ) (es : List ℕ)
    → Ascending lo es
    → All (λ b. (start < b) × (b < end)) es
    → lo ≤ end
    → Tiles lo (adjacent lo (es ++ end ∷ [])) end
unfolding adjacent
adjacent-Tiles lo start end [] a between h = elim (Bool-cases (ltb lo end)) [
  | inl e ↦ rw e (refl, ltb→lt lo end e, refl)
  | inr e ↦ rw e (ground arith)
]
adjacent-Tiles lo start end (b ∷ es) a between h = elim (Bool-cases (ltb lo b)) [
  | inl e ↦ rw e (refl, ltb→lt lo b e, adjacent-Tiles b start end es a.1 between.1 (omega arith))
  | inr e ↦
      let same : lo ≡ b = ground arith in
      rw (e, same) (adjacent-Tiles b start end es a.1 between.1 (omega arith))
]

-- For boundaries in ascending order and a start not after the end, the windows lead from the start to
-- the end without gap or overlap, and none is empty.
pub materialize_windows-Tiles :
    (start end : ℕ) (boundaries : List ℕ)
    → start ≤ end
    → Ascending 0 boundaries
    → Tiles start (materialize_windows start end boundaries) end
unfolding materialize_windows
materialize_windows-Tiles start end boundaries h a =
    adjacent-Tiles start start end (interior start end boundaries)
      (Ascending-above 0 start end (interior start end boundaries)
        (interior-Ascending 0 start end boundaries a) (interior_between start end boundaries))
      (interior_between start end boundaries) h

-- A window has the time, its ends included.
abbrev pub Covered : ℕ → List (ℕ × ℕ) → Type 0
Covered t windows = (w : ℕ × ℕ) × In w windows × (w.0 ≤ t) × (t ≤ w.1)

pub Tiles-Covered :
    (lo end t : ℕ) (windows : List (ℕ × ℕ))
    → Tiles lo windows end
    → lo < end
    → lo ≤ t
    → t ≤ end
    → Covered t windows
Tiles-Covered lo end t [] c h p q = absurd (omega arith)
Tiles-Covered lo end t ((a, b) ∷ []) c h p q = ((a, b), inl refl, omega arith, omega arith)
Tiles-Covered lo end t ((a, b) ∷ w ∷ windows) c h p q = elim (dec_le t b) [
  | yes k ↦ ((a, b), inl refl, omega arith, k)
  | no k ↦
      let (v, i, l, r) = Tiles-Covered b end t (w ∷ windows) c.2 (omega arith) (omega arith) q in
      (v, inr i, l, r)
]
