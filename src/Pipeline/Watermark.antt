-- ===== src/Pipeline/Watermark.antt =====
-- libs/amel_lake/src/amel_lake/watermark.py: reading a watermark, and moving it forward.
use agentic_ml_engineering_l.Base.{
  ℕ, ◌*◌, ◌≤◌, max, String, Bool, true, false, Option, none, some, ◌≡◌, refl, ap, ◌==◌, ==_sound,
  ◌⊎◌, inl, inr, if◌then◌else◌, arith,
}
use native.Mathlib.Decide.{dec_le}
use agentic_ml_engineering_l.Base.Equality.{string_eq}

-- What ON CONFLICT DO UPDATE leaves: `set` is given the stored value and the excluded one.
abbrev pub merged : (ℕ → ℕ → ℕ) → Option ℕ → ℕ → ℕ
merged set none new = new
merged set (some old) new = set old new

-- control.pipeline_watermarks in PostgreSQL: `session.get`, and INSERT ... ON CONFLICT
-- (pipeline_name) DO UPDATE.
pub record Watermarks (W : Type 0) : Type 0 where
  pub get : W → String → Option ℕ
  pub upsert : (ℕ → ℕ → ℕ) → String → ℕ → W → W
  pub get-upsert :
      (set : ℕ → ℕ → ℕ) (k j : String) (v : ℕ) (w : W)
      → get (upsert set k v w) j ≡ (if k == j then some (merged set (get w k) v) else get w j)

-- datetime(1970, 1, 1): 719162 days after 0001-01-01.
abbrev pub epoch : ℕ
epoch = 719162 * 86400 * 1000000

abbrev pub or_epoch : Option ℕ → ℕ
or_epoch none = epoch
or_epoch (some t) = t

covered :
    (v t : ℕ) (same : Bool) (stored other : Option ℕ)
    → (same ≡ true → stored ≡ other)
    → t ≤ or_epoch (if same then some (merged max stored v) else other)
    → (t ≤ or_epoch other) ⊎ (t ≤ v)
covered v t false stored other e h = inl h
covered v t true none other e h = inr h
covered v t true (some old) other e h =
    rw (← e refl) (elim (dec_le t v) [ yes p ↦ inr p | no p ↦ inl (omega arith) ])

module _ {W : Type 0} (x : Watermarks W) where
  unfoldable pub get_watermark : W → String → ℕ
  get_watermark w pipeline_name = or_epoch (x.get w pipeline_name)

  -- `GREATEST(current, new)`
  unfoldable pub advance_watermark : String → ℕ → W → W
  advance_watermark pipeline_name new_value w = x.upsert max pipeline_name new_value w

  -- After the call the stream's watermark is the later of the stored and the new value (the new one
  -- where none was stored), and the other streams' watermarks stay.
  pub get-advance_watermark :
      (k j : String) (v : ℕ) (w : W)
      → x.get (advance_watermark k v w) j
        ≡ (if k == j then some (merged max (x.get w k) v) else x.get w j)
  unfolding advance_watermark
  get-advance_watermark k j v w = x.get-upsert max k j v w

  pub get_watermark-advance_watermark_le :
      (k j : String) (v : ℕ) (w : W)
      → epoch ≤ v
      → get_watermark w j ≤ get_watermark (advance_watermark k v w) j
  unfolding get_watermark
  get_watermark-advance_watermark_le k j v w h =
      rw (get-advance_watermark k j v w) (ground (arith, string_eq.same_iff k j))

  -- A time that the advanced watermark covers was covered before, or is not after the new value.
  pub get_watermark-advance_watermark_cover :
      (k j : String) (v t : ℕ) (w : W)
      → t ≤ get_watermark (advance_watermark k v w) j
      → (t ≤ get_watermark w j) ⊎ (t ≤ v)
  unfolding get_watermark
  get_watermark-advance_watermark_cover k j v t w h =
      covered v t (k == j) (x.get w k) (x.get w j) (λ e. ap (x.get w) (==_sound k j e))
        (rw (get-advance_watermark k j v w) at h)
