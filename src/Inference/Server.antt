-- ===== src/Inference/Server.antt =====
-- api.py: the events of the server's life that refresh the model.
use agentic_ml_engineering_l.Base.{
  ℕ, String, Bool, true, false, not, Option, none, some, List, [], ◌∷◌, ◌==◌, ltb, if◌then◌else◌,
  ◌≡◌, refl, sym, ap, subst, ◌∙◌, Bool-cases, inl, inr,
}
use agentic_ml_engineering_l.Base.Equality.{string_eq}
use agentic_ml_engineering_l.Inference.Model.{
  ModelCache, Attempt, refresh, refresh_all, new_cache, Serves, refresh_all-Serves,
}

pub record Settings : Type 0 where
  pub admin_token : String
  pub model_refresh_seconds : ℕ

-- The start of the process, a turn of _refresh_loop, and POST /model/refresh with its header; each with
-- what the loader gives, if it is called.
pub data Event (M : Type 0) : Type 0 where
  started : Attempt M → Event M
  waited : Attempt M → Event M
  posted : Option String → Attempt M → Event M

-- The answer of POST /model/refresh.
pub data Answer : Type 0 where
  unauthorized : Answer
  refreshed :
      (previous_version current_version : Option String) → Bool → (error : Option String) → Answer

-- x_admin_token == settings.admin_token
abbrev pub same_token : Option String → String → Bool
same_token none token = false
same_token (some t) token = t == token

-- previous == current
abbrev pub same_versions : Option String → Option String → Bool
same_versions none none = true
same_versions none (some v) = false
same_versions (some v) none = false
same_versions (some v) (some w) = v == w

module _ {M : Type 0} (s : Settings) where
  refresh_answer : (Option String × Option String) × ModelCache M → Answer × ModelCache M
  refresh_answer ((previous, current), c) =
      (refreshed previous current (not (same_versions previous current)) c.last_error, c)

  unfoldable pub post_refresh : Option String → Attempt M → ModelCache M → Answer × ModelCache M
  unfolding refresh refresh_answer
  post_refresh token attempt c =
      if same_token token s.admin_token
      then refresh_answer (refresh attempt c)
      else (unauthorized, c)

  -- The loop runs only where the period is positive.
  unfoldable pub handle : Event M → ModelCache M → ModelCache M
  unfolding refresh post_refresh
  handle (started attempt) c = (refresh attempt c).1
  handle (waited attempt) c = if ltb 0 s.model_refresh_seconds then (refresh attempt c).1 else c
  handle (posted token attempt) c = (post_refresh token attempt c).1

  unfoldable pub live : List (Event M) → ModelCache M → ModelCache M
  unfolding handle
  live [] c = c
  live (e ∷ events) c = live events (handle e c)

  -- The attempts that the settings allow.
  abbrev pub allowed : List (Event M) → List (Attempt M)
  allowed [] = []
  allowed (started attempt ∷ events) = attempt ∷ allowed events
  allowed (waited attempt ∷ events) =
      let rest = allowed events in if ltb 0 s.model_refresh_seconds then attempt ∷ rest else rest
  allowed (posted token attempt ∷ events) =
      let rest = allowed events in if same_token token s.admin_token then attempt ∷ rest else rest

  post_refresh_cache :
      (token : Option String) (attempt : Attempt M) (c : ModelCache M)
      → (post_refresh token attempt c).1
        ≡ (if same_token token s.admin_token then (refresh attempt c).1 else c)
  unfolding post_refresh refresh_answer
  post_refresh_cache token attempt c = elim (Bool-cases (same_token token s.admin_token)) [
    | inl e ↦ rw e refl
    | inr e ↦ rw e refl
  ]

  -- An attempt that is made or not.
  live-if :
      (b : Bool) (attempt : Attempt M) (events : List (Event M)) (c : ModelCache M)
      → ((k : ModelCache M) → live events k ≡ refresh_all (allowed events) k)
      → live events (if b then (refresh attempt c).1 else c)
        ≡ refresh_all (if b then attempt ∷ allowed events else allowed events) c
  unfolding refresh_all
  live-if true attempt events c h = h (refresh attempt c).1
  live-if false attempt events c h = h c

  live-allowed :
      (events : List (Event M)) (c : ModelCache M) → live events c ≡ refresh_all (allowed events) c
  unfolding live handle refresh_all
  live-allowed [] c = refl
  live-allowed (started attempt ∷ events) c = live-allowed events (refresh attempt c).1
  live-allowed (waited attempt ∷ events) c =
      live-if (ltb 0 s.model_refresh_seconds) attempt events c (live-allowed events)
  live-allowed (posted token attempt ∷ events) c =
      ap (live events) (post_refresh_cache token attempt c)
      ∙ live-if (same_token token s.admin_token) attempt events c (live-allowed events)

  -- Over the life of the server, the model that serves, the last error and the count of refreshes are
  -- those of the attempts at the start, of the refresh loop where its period is positive, and of the
  -- requests with the admin token, and of no other request: the version is the last that the loader
  -- gave, the error that of the last attempt, and each change of version counts.
  pub live-Serves :
      (events : List (Event M)) → Serves (allowed events) none none 0 (live events new_cache)
  live-Serves events =
      subst (Serves (allowed events) none none 0) (sym (live-allowed events new_cache))
        (refresh_all-Serves (allowed events))
