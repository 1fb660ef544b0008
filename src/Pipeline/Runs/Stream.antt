-- ===== src/Pipeline/Runs/Stream.antt =====
-- One landing table and the watermark of its pipeline: what the rows up to the watermark satisfy, and
-- what an extracted window owes.
use agentic_ml_engineering_l.Base.{
  ℕ, ◌≤◌, ◌<◌, String, some, [], ◌∷◌, In, ◌≡◌, subst, ◌⊎◌, inl, inr, arith,
}
use native.Mathlib.Decide.{dec_le}
use agentic_ml_engineering_l.Base.Equality.{string_eq}
use agentic_ml_engineering_l.Db.Upsert.{first}
use agentic_ml_engineering_l.Db.Table.{Table}
use agentic_ml_engineering_l.Pipeline.Extract.{in_window}

module _ {T Row : Type 0} (landing : Table T Row) (ingested_at : Row → ℕ) where
  -- Every row up to the watermark satisfies P at its key.
  abbrev pub Kept : T → (String → Type 0) → ℕ → Type 0
  Kept t P w = (k : String) (r : Row) → landing.upsert.lookup t k ≡ some r → ingested_at r ≤ w → P k

  -- Every row up to u lies below the watermark or is in the frame.
  abbrev pub Due : T → ℕ → ℕ → (String → Type 0) → Type 0
  Due t w u Frame =
      (k : String) (r : Row)
      → landing.upsert.lookup t k ≡ some r
      → ingested_at r ≤ u
      → (ingested_at r ≤ w) ⊎ Frame k

  -- The table after one more row.
  abbrev pub landed : Row → T → T
  landed r t = (landing.upsert.insert (r ∷ []) t).1

  lookup-landed :
      (k : String) (r r' : Row) (t : T)
      → landing.upsert.lookup (landed r t) k ≡ some r'
      → (landing.upsert.lookup t k ≡ some r') ⊎ (r' ≡ r)
  unfolding first
  lookup-landed k r r' t h = let e = landing.upsert.lookup-insert (r ∷ []) t k in ground arith

  pub Kept-landed :
      (r : Row) (t : T) (P : String → Type 0) (w : ℕ)
      → w < ingested_at r
      → Kept t P w
      → Kept (landed r t) P w
  Kept-landed r t P w late kept k r' h le = elim (lookup-landed k r r' t h) [
    | inl old ↦ kept k r' old le
    | inr e ↦ absurd (let q = subst (λ s. ingested_at s ≤ w) e le in omega arith)
  ]

  pub Due-landed :
      (r : Row) (t : T) (w u : ℕ) (Frame : String → Type 0)
      → u < ingested_at r
      → Due t w u Frame
      → Due (landed r t) w u Frame
  Due-landed r t w u Frame late due k r' h le = elim (lookup-landed k r r' t h) [
    | inl old ↦ due k r' old le
    | inr e ↦ absurd (let q = subst (λ s. ingested_at s ≤ u) e le in omega arith)
  ]

  pub Due-later :
      (t : T) (w w' u : ℕ) (Frame : String → Type 0) → w ≤ w' → Due t w u Frame → Due t w' u Frame
  Due-later t w w' u Frame le due k r h p = elim (due k r h p) [
    | inl q ↦ inl (omega arith)
    | inr f ↦ inr f
  ]

  pub Due-map :
      (t : T) (w u : ℕ) (Frame Frame' : String → Type 0)
      → ((k : String) → Frame k → Frame' k)
      → Due t w u Frame
      → Due t w u Frame'
  Due-map t w u Frame Frame' f due k r h p = elim (due k r h p) [
    | inl q ↦ inl q
    | inr i ↦ inr (f k i)
  ]

  pub Kept-map :
      (t : T) (P P' : String → Type 0) (w : ℕ)
      → ((k : String) → P k → P' k)
      → Kept t P w
      → Kept t P' w
  Kept-map t P P' w f kept k r h p = f k (kept k r h p)

  -- The watermark moves over a window that has been worked off.
  pub Kept-advance :
      (t : T) (P P' Frame : String → Type 0) (w w' u : ℕ)
      → ((k : String) → P k → P' k)
      → ((k : String) → Frame k → P' k)
      → ((n : ℕ) → n ≤ w' → (n ≤ w) ⊎ (n ≤ u))
      → Kept t P w
      → Due t w u Frame
      → Kept t P' w'
  Kept-advance t P P' Frame w w' u old new cover kept due k r h le =
      elim (cover (ingested_at r) le) [
        | inl p ↦ old k (kept k r h p)
        | inr p ↦ elim (due k r h p) [ inl q ↦ old k (kept k r h q) | inr f ↦ new k f ]
      ]

  -- A window that is extracted above an older watermark.
  pub Due-select :
      (t : T) (w0 w u : ℕ)
      → w0 ≤ w
      → Due t w u (λ k.
        (r : Row) × In r (landing.select (λ r. in_window w0 u (ingested_at r)) t)
        × (landing.upsert.key r ≡ k))
  Due-select t w0 w u le k r h p = elim (dec_le (ingested_at r) w) [
    | yes q ↦ inl q
    | no q ↦
        let key = landing.lookup-key t k r h in
        inr (r, landing.select_complete _ t r (rw key h) (ground arith), key)
  ]
