-- ===== src/Ingestor/Batch/Collect.antt =====
-- consumer.py, the loop `for msg in batch`: what one message and the whole loop add.
use agentic_ml_engineering_l.Base.{
  ℕ, ◌≤◌, String, Option, none, some, List, [], ◌∷◌, ◌≡◌, Result, ok, raise, In, All, arith,
  ==_refl,
}
use agentic_ml_engineering_l.Base.Dict.{get}
use agentic_ml_engineering_l.Base.Equality.{string_eq, nat_eq, pair_eq}
use agentic_ml_engineering_l.Ingestor.{Settings, Message, External, Env, Key}
use agentic_ml_engineering_l.Ingestor.Validate.{validate}
use agentic_ml_engineering_l.Ingestor.Batch.{
  Progress, dispatch, track, collect_fields, collect_message, collect, after_message, max_seen,
}
use agentic_ml_engineering_l.Ingestor.Batch.Handled.{TakenFields, Taken-mono, Staged}
use agentic_ml_engineering_l.Ingestor.Batch.Grows.{
  Grows, Grows-refl, Grows-trans, OnReturn, dispatch-Grows, dispatch-Taken, max_offset-track,
  track-Grows, le-max_seen,
}

module _ {B R D T : Type 0} (x : External B R D T) (s : Settings) (env : Env) where
  -- The offset of a message is at most the one that is kept for its partition.
  abbrev pub Tracked : Progress R D T → Option String → Option ℕ → Option ℕ → Type 0
  Tracked q (some t) (some k) (some o) = (n : ℕ) × (get (t, k) q.max_offset ≡ some n) × (o ≤ n)
  Tracked q _ _ _ = Unit

  Tracked-track :
      (t : String) (k o : ℕ) (p : Progress R D T)
      → Tracked (track (t, k) o p) (some t) (some k) (some o)
  Tracked-track t k o p = (
    max_seen (get (t, k) p.max_offset) o,
    rw (max_offset-track x s env (t, k) (t, k) o p, ==_refl {A = Key} (t, k)),
    le-max_seen x s env (get (t, k) p.max_offset) o,
  )

  Tracked-mono :
      {p q : Progress R D T} (t : Option String) (k o : Option ℕ)
      → Grows p q
      → Tracked p t k o
      → Tracked q t k o
  Tracked-mono (some t) (some k) (some o) g (n, e, l) =
      let (n', e', l') = g.offsets (t, k) n e in (n', e', omega arith)
  Tracked-mono none k o g h = tt
  Tracked-mono (some t) none o g h = tt
  Tracked-mono (some t) (some k) none g h = tt

  -- What is known of a message that the loop has passed.
  abbrev pub Passed : Progress R D T → Message B → Type 0
  Passed q m = Staged x s q m × Tracked q m.topic m.partition m.offset

  Passed-mono : {p q : Progress R D T} (m : Message B) → Grows p q → Passed p m → Passed q m
  Passed-mono m g h = (
    Taken-mono x s _ _ _ _ _ _ g.features_rows g.labels_rows g.letters m h.0,
    Tracked-mono m.topic m.partition m.offset g h.1,
  )

  Passed-dispatch :
      {p : Progress R D T} (P : Progress R D T → Type 0) (t : Option String) (k o : Option ℕ)
      (r : Result (Unit {0}) × Progress R D T)
      → OnReturn P r
      → Grows p r.1
      → Tracked p t k o
      → OnReturn (λ q. P q × Tracked q t k o) r
  Passed-dispatch P t k o (ok _, q) h g h' = (h, Tracked-mono t k o g h')
  Passed-dispatch P t k o (raise e, q) h g h' = tt

  All-Passed_cons :
      (m : Message B) (ms : List (Message B)) (q : Progress R D T)
      (r : Result (Unit {0}) × Progress R D T)
      → Passed q m
      → Grows q r.1
      → OnReturn (λ q'. All (Passed q') ms) r
      → OnReturn (λ q'. All (Passed q') (m ∷ ms)) r
  All-Passed_cons m ms q (ok _, q') h g rest = (Passed-mono m g h, rest)
  All-Passed_cons m ms q (raise e, q') h g rest = tt

  collect_fields-Grows :
      (t : Option String) (k o : Option ℕ) (raw : Option B) (p : Progress R D T)
      → Grows p (collect_fields x s env t k o raw p).1
  collect_fields-Grows (some t) (some k) (some o) raw p =
      Grows-trans (track-Grows x s env (t, k) o p) (
        unfold collect_fields in
        dispatch-Grows x s env t k o raw (validate x s t raw) (track (t, k) o p))
  collect_fields-Grows none k o raw p = unfold collect_fields in Grows-refl p
  collect_fields-Grows (some t) none o raw p = unfold collect_fields in Grows-refl p
  collect_fields-Grows (some t) (some k) none raw p = unfold collect_fields in Grows-refl p

  collect_fields-Passed :
      (t : Option String) (k o : Option ℕ) (raw : Option B) (p : Progress R D T)
      → OnReturn
          (λ q.
            TakenFields x s
              (λ r. In r q.features_rows)
              (λ r. In r q.labels_rows)
              q.world.dlq
              t
              k
              o
              raw
            × Tracked q t k o)
          (collect_fields x s env t k o raw p)
  collect_fields-Passed (some t) (some k) (some o) raw p =
      let start = track (t, k) o p in
      unfold collect_fields in
      Passed-dispatch
        (λ q.
          TakenFields x s (λ r. In r q.features_rows) (λ r. In r q.labels_rows) q.world.dlq (some t)
            (some k) (some o) raw)
        (some t) (some k) (some o) (dispatch x s env t k o raw (validate x s t raw) start)
        (dispatch-Taken x s env t k o raw (validate x s t raw) start)
        (dispatch-Grows x s env t k o raw (validate x s t raw) start) (Tracked-track t k o p)
  collect_fields-Passed none k o raw p = unfold collect_fields in (tt, tt)
  collect_fields-Passed (some t) none o raw p = unfold collect_fields in (tt, tt)
  collect_fields-Passed (some t) (some k) none raw p = unfold collect_fields in (tt, tt)

  -- A raise ends the loop, and the later messages see only growth.
  after_message-Grows :
      (p : Progress R D T) (r : Result (Unit {0}) × Progress R D T)
      (continue : Progress R D T → Result (Unit {0}) × Progress R D T)
      → Grows p r.1
      → ((q : Progress R D T) → Grows q (continue q).1)
      → Grows p (after_message r continue).1
  after_message-Grows p (raise e, q) continue g h = g
  after_message-Grows p (ok _, q) continue g h = Grows-trans g (h q)

  after_message-Passed :
      (m : Message B) (ms : List (Message B)) (r : Result (Unit {0}) × Progress R D T)
      (continue : Progress R D T → Result (Unit {0}) × Progress R D T)
      → OnReturn (λ q. Passed q m) r
      → ((q : Progress R D T) → Grows q (continue q).1)
      → ((q : Progress R D T) → OnReturn (λ q'. All (Passed q') ms) (continue q))
      → OnReturn (λ q. All (Passed q) (m ∷ ms)) (after_message r continue)
  after_message-Passed m ms (raise e, q) continue h g rest = tt
  after_message-Passed m ms (ok _, q) continue h g rest =
      All-Passed_cons m ms q (continue q) h (g q) (rest q)

  pub collect-Grows :
      (ms : List (Message B)) (p : Progress R D T) → Grows p (collect x s env ms p).1
  unfolding collect
  collect-Grows [] p = Grows-refl p
  collect-Grows (m ∷ ms) p =
      after_message-Grows p (collect_message x s env m p) (λ q. collect x s env ms q)
        (collect_fields-Grows m.topic m.partition m.offset m.value p) (λ q. collect-Grows ms q)

  -- When the loop returns, every message is staged and its offset is tracked.
  pub collect-Passed :
      (ms : List (Message B)) (p : Progress R D T)
      → OnReturn (λ q. All (Passed q) ms) (collect x s env ms p)
  unfolding collect
  collect-Passed [] p = tt
  collect-Passed (m ∷ ms) p =
      after_message-Passed m ms (collect_message x s env m p) (λ q. collect x s env ms q)
        (collect_fields-Passed m.topic m.partition m.offset m.value p) (λ q. collect-Grows ms q)
        (λ q. collect-Passed ms q)
