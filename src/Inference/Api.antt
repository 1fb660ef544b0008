-- ===== src/Inference/Api.antt =====
-- api.py and publisher.py: readiness, and the status codes of the endpoints.
use agentic_ml_engineering_l.Base.{
  ℕ, suc, ◌-◌, ◌<◌, String, Bool, true, false, not, ◌&&◌, ◌||◌, Option, none, some, is_some, ◌≡◌,
  refl, ap, sym, ◌∙◌, ◌⊎◌, ◌↔◌, ltb, if◌then◌else◌, Exc, Result, ok, raise, Bool-cases, inl, inr,
  arith,
}
use agentic_ml_engineering_l.Base.Exception.{text}
use agentic_ml_engineering_l.Base.Dict.{Dict}
use agentic_ml_engineering_l.Inference.{LoadedModel}
use agentic_ml_engineering_l.Inference.Model.{ModelCache}
use agentic_ml_engineering_l.Inference.Features.{get_features}
use agentic_ml_engineering_l.Inference.Service.Answered.{recorded-Answered}
use agentic_ml_engineering_l.Inference.Service.{
  Estimator, Clients, Env, World, Outcome, answered, model_not_loaded, features_not_found, failed,
  scored, predict, fetched, predict_entity,
}

-- The fields of PredictionPublisher that its callback sets.
pub record Publisher : Type 0 where
  pub delivery_failures : ℕ
  pub last_delivery_error : Option String
  pub last_delivery_error_at : Option ℕ
  pub last_delivery_ok_at : Option ℕ

-- _on_delivery, at a time.
unfoldable pub on_delivery : Option String → ℕ → Publisher → Publisher
on_delivery none now p = record p { last_delivery_ok_at = some now }
on_delivery (some err) now p = record p {
  delivery_failures = suc p.delivery_failures;
  last_delivery_error = some err;
  last_delivery_error_at = some now;
}

abbrev pub later_than : ℕ → Option ℕ → Bool
later_than err_at none = false
later_than err_at (some ok_at) = ltb err_at ok_at

failing : ℕ → ℕ → Publisher → Option ℕ → Option (Option String)
failing window now p none = none
failing window now p (some err_at) =
    if later_than err_at p.last_delivery_ok_at || ltb window (now - err_at)
    then none
    else some p.last_delivery_error

-- degraded(window_seconds); the clock does not run backwards.
unfoldable pub degraded : ℕ → ℕ → Publisher → Option (Option String)
unfolding failing
degraded window now p = failing window now p p.last_delivery_error_at

-- The reasons, without their layout as text.
pub data Reason : Type 0 where
  no_model_loaded : Option String → Reason
  feast_unreachable : Reason
  database_unreachable : String → Reason
  delivery_failing : Option String → Reason
  ready : Reason

-- What the probes meet: the health of the feature server, and the SELECT 1.
pub record Health : Type 0 where
  pub feast : Bool
  pub ping : Option Exc
  pub publisher : Publisher
  pub now : ℕ

-- `window_seconds` of `degraded`, 30 s in microseconds.
abbrev pub delivery_window : ℕ
delivery_window = 30000000

ping_reason : Option Exc → Bool × Reason → Bool × Reason
ping_reason none rest = rest
ping_reason (some exc) rest = (false, database_unreachable (text exc))

delivery_reason : Option (Option String) → Bool × Reason
delivery_reason none = (true, ready)
delivery_reason (some t) = (false, delivery_failing t)

module _ {M : Type 0} where
  -- Probes.readiness
  unfoldable pub readiness : Clients → ModelCache M → Health → Bool × Reason
  unfolding ping_reason delivery_reason degraded
  readiness clients cache h =
      let delivery =
        if clients.publisher
        then delivery_reason (degraded delivery_window h.now h.publisher)
        else (true, ready) in
      let database = if clients.store then ping_reason h.ping delivery else delivery in
      if not (is_some cache.current)
      then (false, no_model_loaded cache.last_error)
      else if clients.features && not h.feast
      then (false, feast_unreachable)
      else database

  unfoldable pub ready_status : Clients → ModelCache M → Health → ℕ
  unfolding readiness
  ready_status clients cache h = if (readiness clients cache h).0 then 200 else 503

-- No failed delivery within the window that a later delivery does not follow.
abbrev pub IsDelivering : ℕ → Publisher → Type 0
IsDelivering now p =
    (err_at : ℕ)
    → p.last_delivery_error_at ≡ some err_at
    → later_than err_at p.last_delivery_ok_at ≡ false
    → delivery_window < now - err_at

module _ {M : Type 0} where
  pub record IsReady (clients : Clients) (cache : ModelCache M) (h : Health) : Type 0 where
    pub model : is_some cache.current ≡ true
    pub feast : clients.features ≡ true → h.feast ≡ true
    pub database : clients.store ≡ true → h.ping ≡ none
    pub delivery : clients.publisher ≡ true → IsDelivering h.now h.publisher

failing_lem :
    (now : ℕ) (p : Publisher) (e : Option ℕ)
    → (failing delivery_window now p e ≡ none) ↔ (
        (err_at : ℕ)
        → e ≡ some err_at
        → later_than err_at p.last_delivery_ok_at ≡ false
        → delivery_window < now - err_at)
unfolding failing
failing_lem now p none = ((λ h err_at q l. absurd cc), (λ h. refl))
failing_lem now p (some t) = elim (Bool-cases (later_than t p.last_delivery_ok_at)) [
  | inl l ↦ rw l ((λ h err_at q f. absurd (ground arith)), (λ h. refl))
  | inr l ↦ elim (Bool-cases (ltb delivery_window (now - t))) [
    | inl b ↦ ((λ h err_at q f. ground arith), (λ h. rw (l, b) refl))
    | inr b ↦ (
      (λ h err_at q f. absurd (let g = rw (l, b) at h in cc)),
      (λ h. absurd (let g = h t refl l in ground arith)),
    )
  ]
]

module _ {M : Type 0} (clients : Clients) (cache : ModelCache M) (h : Health) where
  delivered : (degraded delivery_window h.now h.publisher ≡ none) ↔ IsDelivering h.now h.publisher
  unfolding degraded
  delivered = failing_lem h.now h.publisher h.publisher.last_delivery_error_at

  ready_status-IsReady_left : ready_status clients cache h ≡ 200 → IsReady clients cache h
  unfolding ready_status readiness ping_reason delivery_reason
  ready_status-IsReady_left e = record {
    model = ground arith;
    feast = λ c. ground arith;
    database = λ c. ground arith;
    delivery = λ c. delivered.0 (ground arith);
  }

  ready_status-IsReady_right : IsReady clients cache h → ready_status clients cache h ≡ 200
  unfolding ready_status readiness ping_reason delivery_reason
  ready_status-IsReady_right r =
      let m = r.model in
      let f = r.feast in
      let d = r.database in
      let v : clients.publisher ≡ true → degraded delivery_window h.now h.publisher ≡ none =
        (λ c. delivered.1 (r.delivery c)) in
      ground arith

  -- GET /ready gives 200 exactly when a model is loaded and each client that the service has is healthy:
  -- the feature server answers, the database answers, and no delivery failed within the window without
  -- a later one that succeeded.
  pub ready_status-IsReady : (ready_status clients cache h ≡ 200) ↔ IsReady clients cache h
  ready_status-IsReady = (ready_status-IsReady_left, ready_status-IsReady_right)

-- POST /predict/raw; an exception that the handler does not name is a 500.
unfoldable pub raw_status : {R : Type 0} → Outcome R → ℕ
raw_status (answered r) = 200
raw_status model_not_loaded = 503
raw_status (features_not_found t) = 500
raw_status (failed e) = 500

-- POST /predict/entity/{entity_id}
unfoldable pub entity_status : {R : Type 0} → Outcome R → ℕ
entity_status (answered r) = 200
entity_status (features_not_found t) = 404
entity_status model_not_loaded = 503
entity_status (failed e) = 502

module _ {M R : Type 0} (lib : Estimator M R) (clients : Clients) (env : Env R)
    (entity_id trace_id : String) where
  -- The cases of the status of a request for an entity.
  pub record Status (s : ℕ) (fetch : Result (Option (Dict String R)))
      (current : Option (LoadedModel M)) : Type 0 where
    pub not_found : (s ≡ 404) ↔ (fetch ≡ ok none)
    pub not_loaded :
        (s ≡ 503) ↔ ((features : Dict String R) × (fetch ≡ ok (some features)) × (current ≡ none))

  scored_status :
      (features : Dict String R) (loaded : LoadedModel M) (score : Result R) (w : World R)
      → (s : ℕ) × (entity_status
            (scored lib clients env features
              (some entity_id)
              "entity"
              trace_id
              loaded.metadata
              score
              w).0
          ≡ s)
        × ((s ≡ 200) ⊎ (s ≡ 502))
  unfolding entity_status scored
  scored_status features loaded (raise e) w = (502, refl, inr refl)
  scored_status features loaded (ok proba) w =
      let a =
        recorded-Answered lib clients env features (some entity_id) "entity" trace_id
          loaded.metadata proba w in
      (200, ap entity_status a.outcome, inl refl)

  fetched-Status :
      (current : Option (LoadedModel M)) (w : World R) (fetch : Result (Option (Dict String R)))
      → Status
          (entity_status (fetched lib clients env entity_id trace_id current w fetch).0)
          fetch
          current
  unfolding entity_status fetched predict
  fetched-Status current w (raise e) = record {
    not_found = ((λ h. absurd (omega arith)), (λ h. absurd cc));
    not_loaded = ((λ h. absurd (omega arith)), (λ h. absurd (let q = h.1 in cc)));
  }
  fetched-Status current w (ok none) = record {
    not_found = ((λ h. refl), (λ h. refl));
    not_loaded = ((λ h. absurd (omega arith)), (λ h. absurd (let q = h.1 in cc)));
  }
  fetched-Status none w (ok (some feats)) = record {
    not_found = ((λ h. absurd (omega arith)), (λ h. absurd cc));
    not_loaded = ((λ h. (feats, refl, refl)), (λ h. refl));
  }
  fetched-Status (some loaded) w (ok (some feats)) =
      let (s, e, cases) = scored_status feats loaded _ w in
      record {
        not_found = ((λ h. absurd (let q = sym e ∙ h in ground arith)), (λ h. absurd cc));
        not_loaded =
            ((λ h. absurd (let q = sym e ∙ h in ground arith)), (λ h. absurd (let q = h.2 in cc)));
      }

  -- With a feature client, POST /predict/entity gives 404 exactly when the fetch finds no features, and
  -- 503 exactly when it finds them and no model is loaded.
  pub predict_entity-Status :
      (current : Option (LoadedModel M)) (w : World R)
      → clients.features ≡ true
      → Status
          (entity_status (predict_entity lib clients env entity_id trace_id current w).0)
          (get_features env.answer)
          current
  unfolding predict_entity
  predict_entity-Status current w c = simp c (fetched-Status current w (get_features env.answer))
