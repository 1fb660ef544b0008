-- ===== src/Simulator/Runner/Rate.antt =====
-- simulator.py, `_effective_rate`. R: Python's float; a time is a number of microseconds.
use native.Mathlib.Nat.{mod-eq_of_lt, mul-add-mod_self_right}
use agentic_ml_engineering_l.Base.{
  ℕ, zero, suc, ◌+◌, ◌*◌, ◌%◌, ◌<◌, min, Bool, true, false, if◌then◌else◌, ltb, ◌≡◌, refl, ap, ◌∙◌,
  Bool-cases, inl, inr, arith,
}

pub record RateSettings (R : Type 0) : Type 0 where
  pub burst_mode : Bool
  pub events_per_second : R
  pub burst_rate_multiplier : R
  pub burst_interval : ℕ
  pub burst_duration : ℕ

abbrev pub position : ℕ → ℕ → ℕ
position elapsed zero = 0
position elapsed (suc n) = elapsed % suc n

-- `times` is the product of floats.
module _ {R : Type 0} (times : R → R → R) (s : RateSettings R) where
  unfoldable pub effective_rate : ℕ → R
  effective_rate elapsed =
      if s.burst_mode
      then if ltb (position elapsed (s.burst_interval + s.burst_duration)) s.burst_duration
        then times s.events_per_second s.burst_rate_multiplier
        else s.events_per_second
      else s.events_per_second

-- The number of times below n that pass a test.
abbrev pub count_times : (ℕ → Bool) → ℕ → ℕ
count_times p zero = 0
count_times p (suc n) = if p n then suc (count_times p n) else count_times p n

count_times-ap :
    (p q : ℕ → Bool) (n : ℕ) → ((t : ℕ) → t < n → p t ≡ q t) → count_times p n ≡ count_times q n
count_times-ap p q zero h = refl
count_times-ap p q (suc n) h =
    rw (h n (omega arith), count_times-ap p q n (λ t lt. h t (omega arith))) refl

count_times-add :
    (p : ℕ → Bool) (m n : ℕ)
    → count_times p (m + n) ≡ count_times p m + count_times (λ t. p (m + t)) n
count_times-add p m zero = let e : m + 0 ≡ m = omega arith in rw e (omega arith)
count_times-add p m (suc n) =
    let e : m + suc n ≡ suc (m + n) = omega arith in rw (e, count_times-add p m n) (ground arith)

count_times-ltb : (d n : ℕ) → count_times (λ t. ltb t d) n ≡ min n d
count_times-ltb d zero = omega arith
count_times-ltb d (suc n) = ground (arith, count_times-ltb d n)

-- A test that comes round as another one passes as often as that in each round.
count_times-mul :
    (p q : ℕ → Bool) (k n : ℕ)
    → ((j t : ℕ) → t < n → p (j * n + t) ≡ q t)
    → count_times p (k * n) ≡ k * count_times q n
count_times-mul p q zero n h = let e : 0 * n ≡ 0 = omega arith in rw e (omega arith)
count_times-mul p q (suc k) n h =
    let e : suc k * n ≡ k * n + n = omega arith in
    rw
      (
        e,
        count_times-add p (k * n) n,
        count_times-mul p q k n h,
        count_times-ap (λ t. p (k * n + t)) q n (λ t lt. h k t lt),
      )
      (omega arith)

min_duration : (i d : ℕ) → min (i + d) d ≡ d
min_duration i d = omega arith

position-round : (c j t : ℕ) → t < c → position (j * c + t) c ≡ t
position-round zero j t h = absurd (omega arith)
position-round (suc n) j t h = mul-add-mod_self_right j (suc n) t ∙ mod-eq_of_lt h

module _ {R : Type 0} (times : R → R → R) (s : RateSettings R) (is_burst : R → Bool)
    (fast : is_burst (times s.events_per_second s.burst_rate_multiplier) ≡ true)
    (slow : is_burst s.events_per_second ≡ false) (burst : s.burst_mode ≡ true) where
  is_burst-effective_rate :
      (t : ℕ)
      → is_burst (effective_rate times s t)
        ≡ ltb (position t (s.burst_interval + s.burst_duration)) s.burst_duration
  unfolding effective_rate
  is_burst-effective_rate t =
      rw burst
        (elim (Bool-cases
          (ltb (position t (s.burst_interval + s.burst_duration)) s.burst_duration)) [
            | inl e ↦ rw (e, fast) refl
            | inr e ↦ rw (e, slow) refl
          ])

  round :
      (j t : ℕ)
      → t < s.burst_interval + s.burst_duration
      → is_burst (effective_rate times s (j * (s.burst_interval + s.burst_duration) + t))
        ≡ ltb t s.burst_duration
  round j t h =
      is_burst-effective_rate (j * (s.burst_interval + s.burst_duration) + t)
      ∙ ap (λ u. ltb u s.burst_duration)
          (position-round (s.burst_interval + s.burst_duration) j t h)

  -- In burst mode, where a test tells the burst rate from the plain one: in k cycles of an interval and
  -- a burst, the burst rate holds for exactly k times the length of a burst.
  pub effective_rate-burst :
      (k : ℕ)
      → count_times
          (λ t. is_burst (effective_rate times s t))
          (k * (s.burst_interval + s.burst_duration))
        ≡ k * s.burst_duration
  effective_rate-burst k =
      count_times-mul _ (λ t. ltb t s.burst_duration) k (s.burst_interval + s.burst_duration) round
      ∙ ap (λ n. k * n)
          (count_times-ltb s.burst_duration (s.burst_interval + s.burst_duration)
            ∙ min_duration s.burst_interval s.burst_duration)
