-- ===== src/Inference/Service/Answered.antt =====
-- service.py: "validate, predict, persist, publish": a failing database or broker fails no prediction.
use agentic_ml_engineering_l.Base.{
  ◌+◌, String, Bool, true, false, not, ◌&&◌, Option, some, List, [], ◌∷◌, ◌++◌, is_some, ◌≡◌, refl,
  ap, ◌∙◌, if◌then◌else◌, ok, Option-cases, inl, inr, arith,
}
use agentic_ml_engineering_l.Base.Dict.{Dict}
use agentic_ml_engineering_l.Db.Session.{session_scope}
use agentic_ml_engineering_l.Schemas.Features.{higgs_feature_names}
use agentic_ml_engineering_l.Inference.{LoadedModel, ModelMetadata, Prediction, PredictionEvent}
use agentic_ml_engineering_l.Inference.Features.{
  get_features, columns_of, IsComplete, get_features-IsComplete,
}
use agentic_ml_engineering_l.Inference.Service.{
  Estimator, Clients, Env, World, Outcome, answered, add, saved, save, counted, persist, hand_over,
  publish, floats, row, event, result, recorded, scored, score, predict, fetched, predict_entity,
}

append-nil {ℓ} : {A : Type ℓ} (xs : List A) → xs ≡ xs ++ []
append-nil [] = refl
append-nil (x ∷ xs) = ap (◌∷◌ x) (append-nil xs)

module _ {R : Type 0} where
  -- What `persist` has done.
  pub record Persisted (store : Bool) (r : Prediction R) (env : Env R) (w : World R)
      (out : Bool × World R) : Type 0 where
    pub persisted : out.0 ≡ (store && not (is_some env.commit_error))
    pub rows : out.1.rows ≡ w.rows ++ (if out.0 then r ∷ [] else [])
    pub events : out.1.events ≡ w.events
    pub outcomes : out.1.outcomes ≡ w.outcomes
    pub publish_failures : out.1.publish_failures ≡ w.publish_failures
    pub persist_failures :
        out.1.persist_failures ≡ w.persist_failures + (if store && not out.0 then 1 else 0)

  pub persist-Persisted :
      (store : Bool) (r : Prediction R) (env : Env R) (w : World R)
      → Persisted store r env w (persist store r env w)
  unfolding persist counted save add session_scope saved
  persist-Persisted false r env w = record {
    persisted = refl;
    rows = append-nil w.rows;
    events = refl;
    outcomes = refl;
    publish_failures = refl;
    persist_failures = omega arith;
  }
  persist-Persisted true r env w = elim (Option-cases env.commit_error) [
    | inl q ↦ rw q (record {
      persisted = refl;
      rows = refl;
      events = refl;
      outcomes = refl;
      publish_failures = refl;
      persist_failures = omega arith;
    })
    | inr (e, q) ↦ rw q (record {
      persisted = refl;
      rows = append-nil w.rows;
      events = refl;
      outcomes = refl;
      publish_failures = refl;
      persist_failures = omega arith;
    })
  ]

  -- What `publish` has done.
  pub record Published (publisher : Bool) (v : PredictionEvent R) (env : Env R) (w w' : World R)
      : Type 0 where
    pub sent : Bool
    pub sent_iff : sent ≡ (publisher && not (is_some env.publish_error))
    pub events : w'.events ≡ w.events ++ (if sent then v ∷ [] else [])
    pub rows : w'.rows ≡ w.rows
    pub outcomes : w'.outcomes ≡ w.outcomes
    pub persist_failures : w'.persist_failures ≡ w.persist_failures
    pub publish_failures :
        w'.publish_failures ≡ w.publish_failures + (if publisher && not sent then 1 else 0)

  pub publish-Published :
      (publisher : Bool) (v : PredictionEvent R) (env : Env R) (w : World R)
      → Published publisher v env w (publish publisher v env w)
  unfolding publish hand_over
  publish-Published false v env w = record {
    sent = false;
    sent_iff = refl;
    events = append-nil w.events;
    rows = refl;
    outcomes = refl;
    persist_failures = refl;
    publish_failures = omega arith;
  }
  publish-Published true v env w = elim (Option-cases env.publish_error) [
    | inl q ↦ rw q (record {
      sent = true;
      sent_iff = refl;
      events = refl;
      rows = refl;
      outcomes = refl;
      persist_failures = refl;
      publish_failures = omega arith;
    })
    | inr (e, q) ↦ rw q (record {
      sent = false;
      sent_iff = refl;
      events = append-nil w.events;
      rows = refl;
      outcomes = refl;
      persist_failures = refl;
      publish_failures = omega arith;
    })
  ]

module _ {M R : Type 0} (lib : Estimator M R) (clients : Clients) (env : Env R)
    (features : Dict String R) (entity_id : Option String) (source trace_id : String) where
  -- A request that is answered: by the model that serves, with its row in the table exactly if the
  -- result says so, which is if there is a store and the commit succeeds; and with the event of the
  -- same prediction exactly if there is a publisher and it accepts it, stored or not.
  pub record Answered (meta : ModelMetadata) (w : World R) (out : Outcome R × World R)
      : Type 0 where
    pub proba : R
    pub persisted : Bool
    pub sent : Bool
    pub outcome :
        out.0
        ≡ answered (result lib clients env features entity_id source trace_id meta proba persisted)
    pub persisted_iff : persisted ≡ (clients.store && not (is_some env.commit_error))
    pub sent_iff : sent ≡ (clients.publisher && not (is_some env.publish_error))
    pub rows :
        out.1.rows
        ≡ w.rows
          ++ (if persisted
              then row lib clients env features entity_id source trace_id meta proba ∷ []
              else [])
    pub events :
        out.1.events
        ≡ w.events
          ++ (if sent
              then event lib clients env features entity_id source trace_id meta proba ∷ []
              else [])
    pub outcomes : out.1.outcomes ≡ (source, "ok") ∷ w.outcomes
    pub persist_failures :
        out.1.persist_failures
        ≡ w.persist_failures + (if clients.store && not persisted then 1 else 0)
    pub publish_failures :
        out.1.publish_failures
        ≡ w.publish_failures + (if clients.publisher && not sent then 1 else 0)

  pub recorded-Answered :
      (meta : ModelMetadata) (proba : R) (w : World R)
      → Answered meta w
          (scored lib clients env features entity_id source trace_id meta (ok proba) w)
  unfolding scored recorded
  recorded-Answered meta proba w =
      let r = row lib clients env features entity_id source trace_id meta proba in
      let v = event lib clients env features entity_id source trace_id meta proba in
      let p = persist-Persisted clients.store r env w in
      let q = publish-Published clients.publisher v env (persist clients.store r env w).1 in
      record {
        proba = proba;
        persisted = (persist clients.store r env w).0;
        sent = q.sent;
        outcome = refl;
        persisted_iff = p.persisted;
        sent_iff = q.sent_iff;
        rows = q.rows ∙ p.rows;
        events = q.events ∙ ap (λ l. l ++ (if q.sent then v ∷ [] else [])) p.events;
        outcomes = ap (λ l. (source, "ok") ∷ l) (q.outcomes ∙ p.outcomes);
        persist_failures = q.persist_failures ∙ p.persist_failures;
        publish_failures = rw (q.publish_failures, p.publish_failures) refl;
      }

  pub predict-Answered :
      (loaded : LoadedModel M) (w : World R)
      → IsComplete higgs_feature_names features
      → ((vs : List R) → (proba : R) × (lib.predict_proba loaded.model vs ≡ ok proba))
      → Answered loaded.metadata w
          (predict lib clients env features entity_id source trace_id (some loaded) w)
  unfolding predict score
  predict-Answered loaded w c total =
      elim (Option-cases (columns_of higgs_feature_names features)) [
        | inl q ↦ absurd (let f = rw q at c in cc)
        | inr (vs, q) ↦
            let (proba, e) = total (floats lib clients vs) in
            rw (q, e) (recorded-Answered loaded.metadata proba w)
      ]

module _ {M R : Type 0} (lib : Estimator M R) (clients : Clients) (env : Env R)
    (entity_id trace_id : String) where
  fetched-Answered :
      (loaded : LoadedModel M) (w : World R) (features : Dict String R)
      → clients.features ≡ true
      → get_features env.answer ≡ ok (some features)
      → Answered lib clients env features
          (some entity_id)
          "entity"
          trace_id
          loaded.metadata
          w
          (predict lib clients env features (some entity_id) "entity" trace_id (some loaded) w)
      → Answered lib clients env features
          (some entity_id)
          "entity"
          trace_id
          loaded.metadata
          w
          (predict_entity lib clients env entity_id trace_id (some loaded) w)
  unfolding predict_entity fetched
  fetched-Answered loaded w features c q a = simp (c, q) a

  -- When the feature server gives an entity's features and a model is loaded that scores every frame,
  -- the request is answered (Answered), whatever the database and Kafka do.
  pub predict_entity-Answered :
      (loaded : LoadedModel M) (w : World R) (features : Dict String R)
      → clients.features ≡ true
      → get_features env.answer ≡ ok (some features)
      → ((vs : List R) → (proba : R) × (lib.predict_proba loaded.model vs ≡ ok proba))
      → Answered lib clients env features
          (some entity_id)
          "entity"
          trace_id
          loaded.metadata
          w
          (predict_entity lib clients env entity_id trace_id (some loaded) w)
  predict_entity-Answered loaded w features c q total = fetched-Answered loaded w features c q (
      predict-Answered lib clients env features (some entity_id) "entity" trace_id loaded w
        (get_features-IsComplete env.answer features q).1 total)
