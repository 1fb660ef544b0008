-- ===== src/Ingestor/Batch/Reference.antt =====
-- consumer.py: the rows and the dead letters of a batch, described without the loop.
use mathlib.Core.List.{append-nil, append_assoc}
use agentic_ml_engineering_l.Base.{
  ℕ, String, Option, none, some, List, [], ◌∷◌, ◌++◌, ◌==◌, ◌≡◌, refl, ◌∙◌, sym, ap, if◌then◌else◌,
  Result, ok, raise, inl, inr, Bool-cases, Option-cases,
}
use agentic_ml_engineering_l.Base.Equality.{string_eq}
use agentic_ml_engineering_l.Ingestor.{Settings, Message, Row, Event, Envelope, External, Env, Key}
use agentic_ml_engineering_l.Ingestor.Validate.{
  Validated, parsed, rejected, validate, dlq_topic_for,
}
use agentic_ml_engineering_l.Ingestor.Batch.{
  Progress, send, envelope, dead_letter, row, add_row, dispatch, track, collect_fields,
  collect_message, collect, after_message,
}
use agentic_ml_engineering_l.Ingestor.Batch.Grows.{OnReturn}

module _ {B R D T : Type 0} (x : External B R D T) (s : Settings) where
  -- What one validated message becomes: a row of one of the tables, or a dead letter.
  abbrev pub feature_row : String → ℕ → ℕ → Result (Validated R D) → List (Row R D)
  feature_row t k o (ok (parsed event)) = if t == s.features_topic then row event k o ∷ [] else []
  feature_row t k o (ok (rejected reason)) = []
  feature_row t k o (raise e) = []

  abbrev pub label_row : String → ℕ → ℕ → Result (Validated R D) → List (Row R D)
  label_row t k o (ok (parsed event)) = if t == s.features_topic then [] else row event k o ∷ []
  label_row t k o (ok (rejected reason)) = []
  label_row t k o (raise e) = []

  abbrev pub of_fields :
      {A : Type 0}
      → (String → ℕ → ℕ → Option B → Result (Validated R D) → List A)
      → Option String
      → Option ℕ
      → Option ℕ
      → Option B
      → List A
  of_fields f (some t) (some k) (some o) raw = f t k o raw (validate x s t raw)
  of_fields f _ _ _ raw = []

  abbrev pub of_batch :
      {A : Type 0}
      → (String → ℕ → ℕ → Option B → Result (Validated R D) → List A)
      → List (Message B)
      → List A
  of_batch f [] = []
  of_batch f (m ∷ ms) = of_fields f m.topic m.partition m.offset m.value ++ of_batch f ms

  abbrev pub features_of : List (Message B) → List (Row R D)
  features_of = of_batch (λ t k o raw v. feature_row t k o v)

  abbrev pub labels_of : List (Message B) → List (Row R D)
  labels_of = of_batch (λ t k o raw v. label_row t k o v)

module _ {B R D T : Type 0} (x : External B R D T) (s : Settings) (env : Env) where
  abbrev pub letter_to : String → ℕ → ℕ → Option B → String → Result String → List Envelope
  letter_to t k o raw reason (ok topic) = envelope x s env topic t k o raw reason ∷ []
  letter_to t k o raw reason (raise e) = []

  abbrev pub letter : String → ℕ → ℕ → Option B → Result (Validated R D) → List Envelope
  letter t k o raw (ok (rejected reason)) = letter_to t k o raw reason (dlq_topic_for s t)
  letter t k o raw (ok (parsed event)) = []
  letter t k o raw (raise e) = []

  abbrev pub letters_of : List (Message B) → List Envelope
  letters_of = of_batch x s letter

  -- The rows and letters that come between two moments of the loop.
  pub record Adds (p : Progress R D T) (f l : List (Row R D)) (d : List Envelope)
      (q : Progress R D T) : Type 0 where
    pub features_rows : q.features_rows ≡ p.features_rows ++ f
    pub labels_rows : q.labels_rows ≡ p.labels_rows ++ l
    pub letters : q.world.dlq ≡ p.world.dlq ++ d

  Adds-nothing : (p : Progress R D T) → Adds p [] [] [] p
  Adds-nothing p = record {
    features_rows = sym (append-nil p.features_rows);
    labels_rows = sym (append-nil p.labels_rows);
    letters = sym (append-nil p.world.dlq);
  }

  Adds-trans :
      {p q r : Progress R D T} {f l f' l' : List (Row R D)} {d d' : List Envelope}
      → Adds p f l d q
      → Adds q f' l' d' r
      → Adds p (f ++ f') (l ++ l') (d ++ d') r
  Adds-trans {p} {f} {l} {f'} {l'} {d} {d'} a b = record {
    features_rows =
        b.features_rows ∙ ap (λ h. h ++ f') a.features_rows ∙ append_assoc p.features_rows f f';
    labels_rows = b.labels_rows ∙ ap (λ h. h ++ l') a.labels_rows ∙ append_assoc p.labels_rows l l';
    letters = b.letters ∙ ap (λ h. h ++ d') a.letters ∙ append_assoc p.world.dlq d d';
  }

  send-Adds :
      (e : Envelope) (p : Progress R D T) → OnReturn (Adds p [] [] (e ∷ [])) (send x s env e p)
  send-Adds e p = elim (Option-cases (env.produce_error p.world.dlq e)) [
    | inl h ↦
        unfold send in
        rw (h, send)
          (record {
            features_rows = sym (append-nil p.features_rows);
            labels_rows = sym (append-nil p.labels_rows);
            letters = refl;
          })
    | inr (exc, h) ↦ unfold send in rw (h, send) tt
  ]

  dead_letter-Adds :
      (t : String) (k o : ℕ) (raw : Option B) (reason : String) (topic : Result String)
      (p : Progress R D T)
      → OnReturn
          (Adds p [] [] (letter_to t k o raw reason topic))
          (dead_letter x s env t k o raw reason topic p)
  unfolding dead_letter
  dead_letter-Adds t k o raw reason (raise e) p = tt
  dead_letter-Adds t k o raw reason (ok topic) p =
      send-Adds (envelope x s env topic t k o raw reason) p

  add_row-Adds :
      (t : String) (k o : ℕ) (event : Event R D) (p : Progress R D T)
      → Adds p
          (feature_row x s t k o (ok (parsed event)))
          (label_row x s t k o (ok (parsed event)))
          []
          (add_row x s env t (row event k o) p)
  add_row-Adds t k o event p = elim (Bool-cases (t == s.features_topic)) [
    | inl h ↦
        unfold add_row in
        rw (h, add_row)
          (record {
            features_rows = refl;
            labels_rows = sym (append-nil p.labels_rows);
            letters = sym (append-nil p.world.dlq);
          })
    | inr h ↦
        unfold add_row in
        rw (h, add_row)
          (record {
            features_rows = sym (append-nil p.features_rows);
            labels_rows = refl;
            letters = sym (append-nil p.world.dlq);
          })
  ]

  dispatch-Adds :
      (t : String) (k o : ℕ) (raw : Option B) (v : Result (Validated R D)) (p : Progress R D T)
      → OnReturn
          (Adds p (feature_row x s t k o v) (label_row x s t k o v) (letter t k o raw v))
          (dispatch x s env t k o raw v p)
  unfolding dispatch
  dispatch-Adds t k o raw (raise e) p = tt
  dispatch-Adds t k o raw (ok (rejected reason)) p =
      dead_letter-Adds t k o raw reason (dlq_topic_for s t) p
  dispatch-Adds t k o raw (ok (parsed event)) p = add_row-Adds t k o event p

  abbrev FieldsAdds :
      Option String → Option ℕ → Option ℕ → Option B → Progress R D T → Progress R D T → Type 0
  FieldsAdds t k o raw p =
      Adds p (of_fields x s (λ t k o raw v. feature_row x s t k o v) t k o raw)
        (of_fields x s (λ t k o raw v. label_row x s t k o v) t k o raw)
        (of_fields x s letter t k o raw)

  -- `track` adds no row and no letter.
  untracked :
      (key : Key) (o : ℕ) (p : Progress R D T) (f l : List (Row R D)) (d : List Envelope)
      (r : Result (Unit {0}) × Progress R D T)
      → OnReturn (Adds (track key o p) f l d) r
      → OnReturn (Adds p f l d) r
  unfolding track
  untracked key o p f l d (ok _, q) a = record {
    features_rows = a.features_rows;
    labels_rows = a.labels_rows;
    letters = a.letters;
  }
  untracked key o p f l d (raise e, q) a = tt

  collect_fields-Adds :
      (t : Option String) (k o : Option ℕ) (raw : Option B) (p : Progress R D T)
      → OnReturn (FieldsAdds t k o raw p) (collect_fields x s env t k o raw p)
  unfolding collect_fields
  collect_fields-Adds (some t) (some k) (some o) raw p =
      let v = validate x s t raw in
      untracked (t, k) o p (feature_row x s t k o v) (label_row x s t k o v) (letter t k o raw v)
        (dispatch x s env t k o raw v (track (t, k) o p))
        (dispatch-Adds t k o raw v (track (t, k) o p))
  collect_fields-Adds none k o raw p = Adds-nothing p
  collect_fields-Adds (some t) none o raw p = Adds-nothing p
  collect_fields-Adds (some t) (some k) none raw p = Adds-nothing p

  after_message-Adds :
      (p : Progress R D T) (f l f' l' : List (Row R D)) (d d' : List Envelope)
      (r : Result (Unit {0}) × Progress R D T)
      (continue : Progress R D T → Result (Unit {0}) × Progress R D T)
      → OnReturn (Adds p f l d) r
      → ((q : Progress R D T) → OnReturn (Adds q f' l' d') (continue q))
      → OnReturn (Adds p (f ++ f') (l ++ l') (d ++ d')) (after_message r continue)
  after_message-Adds p f l f' l' d d' (raise e, q) continue a rest = tt
  after_message-Adds p f l f' l' d d' (ok _, q) continue a rest = both (continue q) (rest q)
    where
      both :
          (c : Result (Unit {0}) × Progress R D T)
          → OnReturn (Adds q f' l' d') c
          → OnReturn (Adds p (f ++ f') (l ++ l') (d ++ d')) c
      both (ok _, q') b = Adds-trans a b
      both (raise e, q') b = tt

  -- Where the loop returns, it has added the rows and the letters of the batch, in order.
  pub collect-Adds :
      (ms : List (Message B)) (p : Progress R D T)
      → OnReturn
          (Adds p (features_of x s ms) (labels_of x s ms) (letters_of ms))
          (collect x s env ms p)
  unfolding collect
  collect-Adds [] p = Adds-nothing p
  collect-Adds (m ∷ ms) p =
      after_message-Adds p _ _ (features_of x s ms) (labels_of x s ms) _ (letters_of ms)
        (collect_message x s env m p) (λ q. collect x s env ms q)
        (collect_fields-Adds m.topic m.partition m.offset m.value p) (λ q. collect-Adds ms q)
