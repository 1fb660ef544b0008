-- ===== src/Materialize/Gapless.antt =====
-- materialize.py: "a re-run resumes from the last materialized end". No time before the resume point is
-- left out, whichever window fails.
use agentic_ml_engineering_l.Base.{
  ℕ, suc, ◌≤◌, ◌<◌, min, Option, none, some, List, [], ◌∷◌, ◌++◌, In-append_left, In-append_right,
  ◌≡◌, refl, sym, subst, ap, ◌∙◌, inl, inr, true, leb, Bool-cases, Option-cases, Exc, Result, ok,
  raise, arith,
}
use native.Mathlib.Decide.{dec_le}
use agentic_ml_engineering_l.Pipeline.Windows.{Tiles, Covered, materialize_windows-Tiles}
use agentic_ml_engineering_l.Materialize.{
  Source, Registry, max_of, latest, resume_point, resumed, plan_between, plan_from, materialize_all,
  materialize_chunked,
}

-- Every time from the source's first up to where the next run resumes lies in a materialized window.
abbrev pub IsGapless : ℕ → Registry → Type 0
IsGapless first intervals =
    (hi : ℕ) → resume_point intervals ≡ some hi → (t : ℕ) → first ≤ t → t ≤ hi → Covered t intervals

latest-append :
    (t : Option ℕ) (intervals : Registry) (lo hi : ℕ)
    → latest t (intervals ++ (lo, hi) ∷ []) ≡ some (max_of (latest t intervals) hi)
unfolding latest
latest-append t [] lo hi = refl
latest-append t ((a, b) ∷ intervals) lo hi = latest-append (some (max_of t b)) intervals lo hi

-- One more window, from the resume point on.
extended :
    (first : ℕ) (intervals : Registry) (hi : ℕ)
    → resumed (resume_point intervals) first < hi
    → resumed (resume_point (intervals ++ (resumed (resume_point intervals) first, hi) ∷ [])) first
      ≡ hi
unfolding resume_point
extended first intervals hi h =
    rw (latest-append none intervals (resumed (latest none intervals) first) hi)
      (grows (latest none intervals) h)
  where
    grows : (t : Option ℕ) → resumed t first < hi → max_of t hi ≡ hi
    grows none h = refl
    grows (some t) h = omega arith

-- What lies from the first time on and before the point of a resumed run.
before_resumed :
    (first t : ℕ) (r : Option ℕ)
    → first ≤ t
    → t < resumed r first
    → (hi : ℕ) × (r ≡ some hi) × (t ≤ hi)
before_resumed first t none p q = absurd (omega arith)
before_resumed first t (some hi) p q = (hi, refl, omega arith)

extend-IsGapless :
    (first : ℕ) (intervals : Registry) (hi : ℕ)
    → resumed (resume_point intervals) first < hi
    → IsGapless first intervals
    → IsGapless first (intervals ++ (resumed (resume_point intervals) first, hi) ∷ [])
extend-IsGapless first intervals hi h g end e t p q =
    let same : end ≡ hi = sym (ap (λ r. resumed r first) e) ∙ extended first intervals hi h in
    elim (dec_le (resumed (resume_point intervals) first) t) [
      | yes k ↦ (
        (resumed (resume_point intervals) first, hi),
        In-append_right _ intervals _ (inl refl),
        k,
        subst (λ n. t ≤ n) same q,
      )
      | no k ↦
          let (last, r, u) = before_resumed first t (resume_point intervals) p (omega arith) in
          let (w, i, l, v) = g last r t p u in (w, In-append_left w intervals _ i, l, v)
    ]

-- A window that begins at the resume point.
module _ (first lo hi : ℕ) (intervals : Registry) (at : lo ≡ resumed (resume_point intervals) first)
    (up : resumed (resume_point intervals) first < hi) where
  resumed_at : resumed (resume_point (intervals ++ (lo, hi) ∷ [])) first ≡ hi
  resumed_at = rw at (extended first intervals hi up)

  IsGapless-at : IsGapless first intervals → IsGapless first (intervals ++ (lo, hi) ∷ [])
  IsGapless-at g =
      subst (λ n. IsGapless first (intervals ++ (n, hi) ∷ [])) (sym at)
        (extend-IsGapless first intervals hi up g)

-- A run that returns has reached the end.
abbrev pub Reached : ℕ → ℕ → Result ℕ × Registry → Type 0
Reached first end (ok n, intervals) = end ≤ resumed (resume_point intervals) first
Reached first end (raise e, intervals) = Unit

materialize_all-IsGapless :
    (errors : ℕ → Option Exc) (first end n : ℕ) (windows : List (ℕ × ℕ)) (intervals : Registry)
    → Tiles (resumed (resume_point intervals) first) windows end
    → IsGapless first intervals
    → IsGapless first (materialize_all errors n windows intervals).1
      × Reached first end (materialize_all errors n windows intervals)
unfolding materialize_all
materialize_all-IsGapless errors first end n [] intervals c g = (g, omega arith)
materialize_all-IsGapless errors first end n ((lo, hi) ∷ windows) intervals c g =
    elim (Option-cases (errors n)) [
      | inr (e, q) ↦ rw (q, materialize_all) (g, tt)
      | inl q ↦
          rw (q, materialize_all)
            (materialize_all-IsGapless errors first end (suc n) windows (intervals ++ (lo, hi) ∷ [])
              (subst (λ k. Tiles k windows end) (sym (resumed_at first lo hi intervals c.0 c.1))
                c.2)
              (IsGapless-at first lo hi intervals c.0 c.1 g))
    ]

-- A run that returns: every time from the first to the end lies in a window.
abbrev pub Complete : ℕ → ℕ → Result ℕ × Registry → Type 0
Complete first end (ok n, intervals) =
    first < end → (t : ℕ) → first ≤ t → t ≤ end → Covered t intervals
Complete first end (raise e, intervals) = Unit

-- A time after the first at which a run resumes.
at_resumed :
    (first : ℕ) (o : Option ℕ)
    → first < resumed o first
    → (hi : ℕ) × (o ≡ some hi) × (resumed o first ≤ hi)
at_resumed first none l = absurd (omega arith)
at_resumed first (some hi) l = (hi, refl, omega arith)

Reached-Complete :
    (first end : ℕ) (r : Result ℕ × Registry)
    → IsGapless first r.1
    → Reached first end r
    → Complete first end r
Reached-Complete first end (ok n, intervals) g reached = λ h t p q.
    elim (dec_le (resumed (resume_point intervals) first) t) [
      | yes k ↦
          let (hi, r, u) = at_resumed first (resume_point intervals) (omega arith) in
          g hi r t p (omega arith)
      | no k ↦
          let (hi, r, u) = before_resumed first t (resume_point intervals) p (omega arith) in
          g hi r t p u
    ]
Reached-Complete first end (raise e, intervals) g reached = tt

module _ (source : Source) (errors : ℕ → Option Exc) where
  between-IsGapless :
      (first end chunk_rows : ℕ) (intervals : Registry)
      → IsGapless first intervals
      → let r =
          materialize_all errors 0
            (plan_between source (resumed (resume_point intervals) first) end chunk_rows)
            intervals in
        IsGapless first r.1 × Reached first end r
  unfolding plan_between
  between-IsGapless first end chunk_rows intervals g =
      elim (Bool-cases (leb end (resumed (resume_point intervals) first))) [
        | inl e ↦ rw e (unfold materialize_all in (g, ground arith))
        | inr e ↦ rw e (
            materialize_all-IsGapless errors first end 0 _ intervals
              (materialize_windows-Tiles (resumed (resume_point intervals) first) end _
                (ground arith)
                (source.chunk_boundaries-Ascending (resumed (resume_point intervals) first) end
                  chunk_rows))
              g)
      ]

  between-nothing :
      (start end chunk_rows : ℕ) (intervals : Registry)
      → end ≤ start
      → materialize_all errors 0 (plan_between source start end chunk_rows) intervals
        ≡ (ok 0, intervals)
  unfolding plan_between materialize_all
  between-nothing start end chunk_rows intervals h =
      let e : leb end start ≡ true = ground arith in rw e refl

  first-nothing :
      (first end chunk_rows : ℕ)
      → end ≤ first
      → materialize_all errors 0
          (plan_between source (resumed (resume_point []) first) end chunk_rows)
          []
        ≡ (ok 0, [])
  unfolding resume_point latest
  first-nothing first end chunk_rows h = between-nothing first end chunk_rows [] h

  -- For a source with the times `first` to `last`, whose windows so far left out no time from `first`
  -- up to the last end among them: a run leaves none out up to the last end after it, whichever window
  -- fails. A run that returns has every time from `first` to the given end, or to `last` if that is
  -- earlier, in a window, provided that this end is after `first`; and where it is not, and nothing
  -- was materialized before, the run materializes nothing.
  pub materialize_chunked-IsGapless :
      (first last end chunk_rows : ℕ) (intervals : Registry)
      → source.bounds ≡ some (first, last)
      → IsGapless first intervals
      → IsGapless first (materialize_chunked source errors end chunk_rows intervals).1
        × Complete first (min end last) (materialize_chunked source errors end chunk_rows intervals)
        × (min end last ≤ first
            → intervals ≡ []
            → materialize_chunked source errors end chunk_rows intervals ≡ (ok 0, []))
  unfolding materialize_chunked
  materialize_chunked-IsGapless first last end chunk_rows intervals e g =
      let (gapless, reached) = between-IsGapless first (min end last) chunk_rows intervals g in
      rw (e, plan_from)
        (
          gapless,
          Reached-Complete first (min end last) _ gapless reached,
          λ h q. rw q (first-nothing first (min end last) chunk_rows h),
        )
