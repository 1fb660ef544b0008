-- ===== src/Simulator/Runner/Faithful/Sends.antt =====
-- simulator.py, `_send`: the world keeps its invariant through a send, whether or not it raises.
use agentic_ml_engineering_l.Base.{
  ℕ, suc, Bool, true, false, Option, none, some, List, [], ◌∷◌, ◌++◌, All-append, ◌≡◌, refl, sym,
  ap, ◌∙◌, Exc, Result, ok, raise, value_error, key_error, runtime_error, unicode_decode_error,
  buffer_error, kafka_exception, database_error, other_exception, inl, inr, ◌⊎◌,
}
use agentic_ml_engineering_l.Schemas.Values.{Pydantic}
use agentic_ml_engineering_l.Simulator.Runner.{
  Sent, Counters, Settings, World, Kafka, plus_if, is_feature, is_label, counted, produced, produce,
  after_produce, publish, after_publish, send, again, send_with_duplicate, on_publish_error,
}
use agentic_ml_engineering_l.Simulator.Runner.Faithful.{count, IsTruthful, Counts, IsFaithful}

plus_if_comm : (a b : Bool) (n : ℕ) → plus_if a (plus_if b n) ≡ plus_if b (plus_if a n)
plus_if_comm true true n = refl
plus_if_comm true false n = refl
plus_if_comm false true n = refl
plus_if_comm false false n = refl

module _ {R : Type 0} where
  count-snoc :
      (p : Sent R → Bool) (m : Sent R) (log : List (Sent R))
      → count p (log ++ m ∷ []) ≡ plus_if (p m) (count p log)
  count-snoc p m [] = refl
  count-snoc p m (x ∷ log) =
      ap (plus_if (p x)) (count-snoc p m log) ∙ plus_if_comm (p x) (p m) (count p log)

  -- A publish raises and leaves the log, or hands the message over.
  Published : Sent R → World R → Result (Unit {0}) × World R → Type 0
  Published m w r =
      ((e : Exc) × (n : ℕ) × (r ≡ (raise e, record w { calls = n })))
      ⊎ ((n : ℕ) × (r ≡ (ok tt, record w { log = w.log ++ m ∷ []; calls = n })))

  produced-Published :
      (m : Sent R) (w : World R) (kafka : Kafka) (n : ℕ) (o : Option Exc)
      → Published m w (produced kafka o m (record w { calls = n }))
  unfolding produced Published
  produced-Published m w kafka n none = inr (suc n, refl)
  produced-Published m w kafka n (some e) = inl (e, suc n, refl)

  module _ (kafka : Kafka) where
    produce-Published :
        (m : Sent R) (w : World R) (n : ℕ)
        → Published m w (produce kafka m (record w { calls = n }))
    unfolding produce
    produce-Published m w n = produced-Published m w kafka n (kafka.produce_error n)

    after_produce-raise :
        (m : Sent R) (w : World R) (n : ℕ) (e : Exc)
        → Published m w (after_produce kafka m (raise e, record w { calls = n }))
    unfolding after_produce Published
    after_produce-raise m w n (buffer_error t) = produce-Published m w n
    after_produce-raise m w n (value_error t) = inl (value_error t, n, refl)
    after_produce-raise m w n (key_error t) = inl (key_error t, n, refl)
    after_produce-raise m w n (runtime_error t) = inl (runtime_error t, n, refl)
    after_produce-raise m w n (unicode_decode_error t) = inl (unicode_decode_error t, n, refl)
    after_produce-raise m w n (kafka_exception t) = inl (kafka_exception t, n, refl)
    after_produce-raise m w n (database_error t) = inl (database_error t, n, refl)
    after_produce-raise m w n (other_exception t) = inl (other_exception t, n, refl)

    after_produce-Published :
        (m : Sent R) (w : World R) (r : Result (Unit {0}) × World R)
        → Published m w r
        → Published m w (after_produce kafka m r)
    unfolding after_produce Published
    after_produce-Published m w r (inl (e, n, p)) = rw p (after_produce-raise m w n e)
    after_produce-Published m w r (inr (n, p)) = rw p (inr (n, refl))

    publish-Published : (m : Sent R) (w : World R) → Published m w (publish kafka m w)
    unfolding publish
    publish-Published m w = after_produce-Published m w _ (produce-Published m w w.calls)

module _ {R D : Type 0} (py : Pydantic R D) (s : Settings R) (kafka : Kafka) where
  abbrev pub Kept : Result (Unit {0}) × World R → Type 0
  Kept r = IsFaithful py s r.1

  Counts-counted :
      (m : Sent R) (log : List (Sent R)) (c : Counters)
      → Counts log c
      → Counts (log ++ m ∷ []) (counted m c)
  Counts-counted m log c (f, l, b, d) = (
    ap (plus_if (is_feature m.event_type)) f ∙ sym (count-snoc _ m log),
    ap (plus_if (is_label m.event_type)) l ∙ sym (count-snoc _ m log),
    ap (plus_if m.malformed) b ∙ sym (count-snoc _ m log),
    ap (plus_if m.duplicate) d ∙ sym (count-snoc _ m log),
  )

  after_publish-Kept :
      (m : Sent R) (w : World R) (r : Result (Unit {0}) × World R)
      → Published m w r
      → IsTruthful py m
      → IsFaithful py s w
      → Kept (after_publish kafka m r)
  unfolding after_publish Published
  after_publish-Kept m w r (inl (e, n, p)) t f = rw p f
  after_publish-Kept m w r (inr (n, p)) t f =
      rw p (All-append _ w.log _ f.0 (t, tt), f.1, Counts-counted m w.log w.counters f.2)

  send-Kept :
      (m : Sent R) (w : World R) → IsTruthful py m → IsFaithful py s w → Kept (send kafka m w)
  unfolding send
  send-Kept m w = after_publish-Kept m w _ (publish-Published kafka m w)

  again-Kept :
      (duplicate : Bool) (m : Sent R) (r : Result (Unit {0}) × World R)
      → IsTruthful py m
      → Kept r
      → Kept (again kafka duplicate m r)
  unfolding again
  again-Kept duplicate m (raise e, w) t f = f
  again-Kept true m (ok _, w) t f = send-Kept (record m { duplicate = true }) w t f
  again-Kept false m (ok _, w) t f = f

  pub send_with_duplicate-Kept :
      (duplicate : Bool) (m : Sent R) (w : World R)
      → IsTruthful py m
      → IsFaithful py s w
      → Kept (send_with_duplicate kafka duplicate m w)
  unfolding send_with_duplicate
  send_with_duplicate-Kept duplicate m w t f = again-Kept duplicate m _ t (send-Kept m w t f)

  pub on_publish_error-IsFaithful :
      (e : Exc) (w : World R) → IsFaithful py s w → IsFaithful py s (on_publish_error kafka e w).1
  unfolding on_publish_error
  on_publish_error-IsFaithful e w f = f
