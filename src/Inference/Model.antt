-- ===== src/Inference/Model.antt =====
-- model.py: the cache of the serving model, and its refresh from the registry.
use agentic_ml_engineering_l.Base.{
  ℕ, suc, String, Bool, false, Option, none, some, List, [], ◌∷◌, ◌≡◌, refl, ◌==◌, ==_sound,
  if◌then◌else◌, Bool-cases, inl, inr, Result, ok, raise,
}
use agentic_ml_engineering_l.Base.Equality.{string_eq}
use agentic_ml_engineering_l.Base.Exception.{text}
use agentic_ml_engineering_l.Inference.{LoadedModel}

-- The fields that change; the lock makes a refresh one step.
pub record ModelCache (M : Type 0) : Type 0 where
  pub current : Option (LoadedModel M)
  pub last_error : Option String
  pub last_error_at : Option ℕ
  pub refresh_count : ℕ

-- What one call of the loader gives, and the clock.
abbrev pub Attempt : Type 0 → Type 0
Attempt M = Result (LoadedModel M) × ℕ

module _ {M : Type 0} where
  abbrev pub version_of : Option (LoadedModel M) → Option String
  version_of none = none
  version_of (some m) = some m.metadata.version

  -- self._current is not None and loaded.metadata.version == previous
  abbrev pub same_version : Option (LoadedModel M) → LoadedModel M → Bool
  same_version none m = false
  same_version (some c) m = m.metadata.version == c.metadata.version

  unfoldable pub refresh : Attempt M → ModelCache M → (Option String × Option String) × ModelCache M
  refresh (raise exc, now) c = (
    (version_of c.current, version_of c.current),
    record c { last_error = some (text exc); last_error_at = some now },
  )
  refresh (ok m, now) c =
      if same_version c.current m
      then ((version_of c.current, version_of c.current), record c { last_error = none })
      else (
        (version_of c.current, some m.metadata.version),
        record c { current = some m; last_error = none; refresh_count = suc c.refresh_count },
      )

  -- The refreshes of the cache's life, `load_initial` first.
  unfoldable pub refresh_all : List (Attempt M) → ModelCache M → ModelCache M
  unfolding refresh
  refresh_all [] c = c
  refresh_all (a ∷ attempts) c = refresh_all attempts (refresh a c).1

  unfoldable pub new_cache : ModelCache M
  new_cache = record { current = none; last_error = none; last_error_at = none; refresh_count = 0 }

  -- The version that the registry gave last, starting from one.
  abbrev pub latest_version : Option String → List (Attempt M) → Option String
  latest_version v [] = v
  latest_version v ((raise exc, now) ∷ attempts) = latest_version v attempts
  latest_version v ((ok m, now) ∷ attempts) = latest_version (some m.metadata.version) attempts

  -- The error of the last attempt, if that failed.
  abbrev pub latest_error : Option String → List (Attempt M) → Option String
  latest_error e [] = e
  latest_error e ((raise exc, now) ∷ attempts) = latest_error (some (text exc)) attempts
  latest_error e ((ok m, now) ∷ attempts) = latest_error none attempts

  -- How often the version that the registry gives is another than before.
  abbrev pub changes : Option String → List (Attempt M) → ℕ → ℕ
  changes v [] n = n
  changes v ((raise exc, now) ∷ attempts) n = changes v attempts n
  changes none ((ok m, now) ∷ attempts) n = changes (some m.metadata.version) attempts (suc n)
  changes (some v) ((ok m, now) ∷ attempts) n =
      let same = changes (some v) attempts n in
      let other = changes (some m.metadata.version) attempts (suc n) in
      if m.metadata.version == v then same else other

  pub record Serves (attempts : List (Attempt M)) (v e : Option String) (n : ℕ) (c : ModelCache M)
      : Type 0 where
    pub version : version_of c.current ≡ latest_version v attempts
    pub error : c.last_error ≡ latest_error e attempts
    pub count : c.refresh_count ≡ changes v attempts n

  abbrev cache : Option (LoadedModel M) → Option String → Option ℕ → ℕ → ModelCache M
  cache c e t n = record { current = c; last_error = e; last_error_at = t; refresh_count = n }

  from_any :
      (attempts : List (Attempt M)) (c : Option (LoadedModel M)) (e : Option String) (t : Option ℕ)
      (n : ℕ)
      → Serves attempts (version_of c) e n (refresh_all attempts (cache c e t n))
  unfolding refresh_all refresh
  from_any [] c e t n = record { version = refl; error = refl; count = refl }
  from_any ((raise exc, now) ∷ attempts) c e t n =
      let s = from_any attempts c (some (text exc)) (some now) n in
      record { version = s.version; error = s.error; count = s.count }
  from_any ((ok m, now) ∷ attempts) none e t n =
      let s = from_any attempts (some m) none t (suc n) in
      record { version = s.version; error = s.error; count = s.count }
  from_any ((ok m, now) ∷ attempts) (some k) e t n =
      elim (Bool-cases (m.metadata.version == k.metadata.version)) [
        | inl q ↦
            let p = ==_sound m.metadata.version k.metadata.version q in
            let s = from_any attempts (some k) none t n in
            record {
              version = rw (refresh_all, refresh, q, p) s.version;
              error = rw (refresh_all, refresh, q) s.error;
              count = rw (refresh_all, refresh, q) s.count;
            }
        | inr q ↦
            let s = from_any attempts (some m) none t (suc n) in
            record {
              version = rw (refresh_all, refresh, q) s.version;
              error = rw (refresh_all, refresh, q) s.error;
              count = rw (refresh_all, refresh, q) s.count;
            }
      ]

  -- Whatever the loader gave at the start and at each refresh: the version that serves is the last one
  -- that it gave, so a failed load takes no model away; last_error is the error of the last attempt,
  -- none if that succeeded; and refresh_count counts the loads whose version was not the one before.
  pub refresh_all-Serves :
      (attempts : List (Attempt M)) → Serves attempts none none 0 (refresh_all attempts new_cache)
  unfolding new_cache
  refresh_all-Serves attempts = from_any attempts none none none 0
