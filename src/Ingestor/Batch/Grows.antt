-- ===== src/Ingestor/Batch/Grows.antt =====
-- consumer.py, the body of `for msg in batch`: what the handling of one message adds.
use agentic_ml_engineering_l.Base.{
  All, All-append, All-map, List, ◌++◌, ℕ, ◌≤◌, String, Option, none, some, [], ◌∷◌, ◌==◌, ◌≡◌,
  refl, ◌∙◌, if◌then◌else◌, Result, ok, raise, In, In-append_left, In-append_right, arith, inl, inr,
  Bool-cases, Option-cases, ==_sound,
}
use agentic_ml_engineering_l.Base.Dict.{get, get-put}
use agentic_ml_engineering_l.Base.Equality.{string_eq, nat_eq, pair_eq}
use agentic_ml_engineering_l.Ingestor.{Settings, Row, Envelope, External, World, Env, Key}
use agentic_ml_engineering_l.Ingestor.Validate.{Validated, parsed, rejected, dlq_topic_for}
use agentic_ml_engineering_l.Ingestor.Batch.{
  Progress, send, envelope, dead_letter, row, add_row, dispatch, track, max_seen,
}
use agentic_ml_engineering_l.Ingestor.Batch.Handled.{Carries, TakenAs}

-- Each dead letter that was produced has the report of its delivery.
abbrev pub IsReported : {T : Type 0} → World T → Type 0
IsReported w = All (λ letter. (error : Option String) × In (letter, error) w.reports) w.dlq

IsReported-snoc :
    (letter : Envelope) (error : Option String) (letters : List Envelope)
    (reports : List (Envelope × Option String))
    → All (λ a. (e : Option String) × In (a, e) reports) letters
    → All
        (λ a. (e : Option String) × In (a, e) (reports ++ (letter, error) ∷ []))
        (letters ++ letter ∷ [])
IsReported-snoc letter error letters reports h =
    All-append _ letters (letter ∷ [])
      (All-map _ _ letters
        (λ a r. (r.0, In-append_left (a, r.0) reports ((letter, error) ∷ []) r.1)) h)
      ((error, In-append_right (letter, error) reports _ (inl refl)), tt)

-- Rows, dead letters and offsets are only added; the database and the commits stay.
pub record Grows {R D T : Type 0} (p q : Progress R D T) : Type 0 where
  pub features_rows : (r : Row R D) → In r p.features_rows → In r q.features_rows
  pub labels_rows : (r : Row R D) → In r p.labels_rows → In r q.labels_rows
  pub letters : (letter : Envelope) → In letter p.world.dlq → In letter q.world.dlq
  pub offsets :
      (key : Key) (n : ℕ)
      → get key p.max_offset ≡ some n
      → (n' : ℕ) × (get key q.max_offset ≡ some n') × (n ≤ n')
  pub tables : q.world.tables ≡ p.world.tables
  pub commits : q.world.commits ≡ p.world.commits
  pub reported : IsReported p.world → IsReported q.world

abbrev pub OnReturn : {A : Type 0} → (A → Type 0) → Result (Unit {0}) × A → Type 0
OnReturn P (ok _, q) = P q
OnReturn P (raise e, q) = Unit

module _ {R D T : Type 0} where
  pub Grows-refl : (p : Progress R D T) → Grows p p
  Grows-refl p = record {
    features_rows = λ r i. i;
    labels_rows = λ r i. i;
    letters = λ d i. i;
    offsets = λ key n e. (n, e, omega arith);
    tables = refl;
    commits = refl;
    reported = λ h. h;
  }

  pub Grows-trans : {p q r : Progress R D T} → Grows p q → Grows q r → Grows p r
  Grows-trans g h = record {
    features_rows = λ r i. h.features_rows r (g.features_rows r i);
    labels_rows = λ r i. h.labels_rows r (g.labels_rows r i);
    letters = λ d i. h.letters d (g.letters d i);
    offsets = λ key n e.
        let (n', e', l) = g.offsets key n e in
        let (n'', e'', l') = h.offsets key n' e' in (n'', e'', omega arith);
    tables = h.tables ∙ g.tables;
    commits = h.commits ∙ g.commits;
    reported = λ i. h.reported (g.reported i);
  }

  pub OnReturn-map :
      {P Q : Progress R D T → Type 0} (f : (q : Progress R D T) → P q → Q q)
      (r : Result (Unit {0}) × Progress R D T)
      → OnReturn P r
      → OnReturn Q r
  OnReturn-map f (ok _, q) h = f q h
  OnReturn-map f (raise e, q) h = tt

module _ {B R D T : Type 0} (x : External B R D T) (s : Settings) (env : Env) where
  send-Grows : (letter : Envelope) (p : Progress R D T) → Grows p (send x s env letter p).1
  unfolding send
  send-Grows letter p = elim (Option-cases (env.produce_error p.world.dlq letter)) [
    | inl e ↦
        rw (e, send)
          (record {
            features_rows = λ r i. i;
            labels_rows = λ r i. i;
            letters = λ d i. In-append_left d p.world.dlq (letter ∷ []) i;
            offsets = λ key n e. (n, e, omega arith);
            tables = refl;
            commits = refl;
            reported =
                IsReported-snoc letter (env.delivery_error p.world.dlq letter) p.world.dlq
                  p.world.reports;
          })
    | inr (exc, e) ↦ rw (e, send) (Grows-refl p)
  ]

  In-send :
      (letter : Envelope) (p : Progress R D T)
      → OnReturn (λ q. In letter q.world.dlq) (send x s env letter p)
  unfolding send
  In-send letter p = elim (Option-cases (env.produce_error p.world.dlq letter)) [
    | inl e ↦ rw (e, send) (In-append_right letter p.world.dlq (letter ∷ []) (inl refl))
    | inr (exc, e) ↦ rw (e, send) tt
  ]

  add_row-Grows : (t : String) (r : Row R D) (p : Progress R D T) → Grows p (add_row x s env t r p)
  unfolding add_row
  add_row-Grows t r p = elim (Bool-cases (t == s.features_topic)) [
    | inl e ↦ rw e (record {
      features_rows = λ a i. In-append_left a p.features_rows (r ∷ []) i;
      labels_rows = λ r i. i;
      letters = λ d i. i;
      offsets = λ key n e. (n, e, omega arith);
      tables = refl;
      commits = refl;
      reported = λ h. h;
    })
    | inr e ↦ rw e (record {
      features_rows = λ r i. i;
      labels_rows = λ a i. In-append_left a p.labels_rows (r ∷ []) i;
      letters = λ d i. i;
      offsets = λ key n e. (n, e, omega arith);
      tables = refl;
      commits = refl;
      reported = λ h. h;
    })
  ]

  In-add_row :
      (t : String) (r : Row R D) (p : Progress R D T)
      → (if t == s.features_topic
          then In r (add_row x s env t r p).features_rows
          else In r (add_row x s env t r p).labels_rows)
  unfolding add_row
  In-add_row t r p = elim (Bool-cases (t == s.features_topic)) [
    | inl e ↦ rw e (In-append_right r p.features_rows (r ∷ []) (inl refl))
    | inr e ↦ rw e (In-append_right r p.labels_rows (r ∷ []) (inl refl))
  ]

  module _ (t : String) (k o : ℕ) (raw : Option B) where
    dead_letter-Grows :
        (reason : String) (topic : Result String) (p : Progress R D T)
        → Grows p (dead_letter x s env t k o raw reason topic p).1
    unfolding dead_letter
    dead_letter-Grows reason (raise e) p = Grows-refl p
    dead_letter-Grows reason (ok topic) p = send-Grows _ p

    dead_letter-Carries :
        (reason : String) (topic : Result String) (p : Progress R D T)
        → OnReturn
            (λ q. (letter : Envelope) × In letter q.world.dlq × Carries x t k o raw letter)
            (dead_letter x s env t k o raw reason topic p)
    unfolding dead_letter
    dead_letter-Carries reason (raise e) p = tt
    dead_letter-Carries reason (ok topic) p =
        let letter = envelope x s env topic t k o raw reason in
        OnReturn-map
          (λ q i.
            (letter, i, record { topic = refl; partition = refl; offset = refl; bytes = refl }))
          (send x s env letter p) (In-send letter p)

    pub dispatch-Grows :
        (v : Result (Validated R D)) (p : Progress R D T)
        → Grows p (dispatch x s env t k o raw v p).1
    unfolding dispatch
    dispatch-Grows (raise e) p = Grows-refl p
    dispatch-Grows (ok (rejected reason)) p = dead_letter-Grows reason (dlq_topic_for s t) p
    dispatch-Grows (ok (parsed event)) p = add_row-Grows t (row event k o) p

    pub dispatch-Taken :
        (v : Result (Validated R D)) (p : Progress R D T)
        → OnReturn
            (λ q.
              TakenAs x s
                (λ r. In r q.features_rows)
                (λ r. In r q.labels_rows)
                q.world.dlq
                t
                k
                o
                raw
                v)
            (dispatch x s env t k o raw v p)
    unfolding dispatch
    dispatch-Taken (raise e) p = tt
    dispatch-Taken (ok (rejected reason)) p = dead_letter-Carries reason (dlq_topic_for s t) p
    dispatch-Taken (ok (parsed event)) p = In-add_row t (row event k o) p

  pub le-max_seen : (old : Option ℕ) (o : ℕ) → o ≤ max_seen old o
  le-max_seen none o = omega arith
  le-max_seen (some n) o = omega arith

  old_le-max_seen : (n o : ℕ) (old : Option ℕ) → old ≡ some n → n ≤ max_seen old o
  old_le-max_seen n o none e = cc
  old_le-max_seen n o (some m) e = let e' : m ≡ n = cc in omega arith

  -- Lookups after `track`, in terms of those before.
  pub max_offset-track :
      (key j : Key) (o : ℕ) (p : Progress R D T)
      → get j (track key o p).max_offset
        ≡ (if key == j then some (max_seen (get key p.max_offset) o) else get j p.max_offset)
  unfolding track
  max_offset-track key j o p = get-put key j (max_seen (get key p.max_offset) o) p.max_offset

  offsets-track :
      (key : Key) (o : ℕ) (p : Progress R D T) (j : Key) (n : ℕ)
      → get j p.max_offset ≡ some n
      → (n' : ℕ) × (get j (track key o p).max_offset ≡ some n') × (n ≤ n')
  offsets-track key o p j n e = elim (Bool-cases (key == j)) [
    | inl h ↦
        let q : key ≡ j = ==_sound key j h in
        (
          max_seen (get key p.max_offset) o,
          rw (max_offset-track key j o p, h),
          old_le-max_seen n o (get key p.max_offset) (rw q e),
        )
    | inr h ↦ (n, rw (max_offset-track key j o p, h) e, omega arith)
  ]

  pub track-Grows : (key : Key) (o : ℕ) (p : Progress R D T) → Grows p (track key o p)
  track-Grows key o p = record {
    features_rows = unfold track in λ r i. i;
    labels_rows = unfold track in λ r i. i;
    letters = unfold track in λ d i. i;
    offsets = offsets-track key o p;
    tables = unfold track in refl;
    commits = unfold track in refl;
    reported = unfold track in λ h. h;
  }
