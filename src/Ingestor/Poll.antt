-- ===== src/Ingestor/Poll.antt =====
-- consumer.py, `_poll_batch`: what the loop meets, one entry for each turn.
use agentic_ml_engineering_l.Base.{
  ℕ, zero, suc, ◌+◌, ◌≤◌, ◌<◌, String, Bool, true, false, ◌&&◌, Option, none, some, List, [], ◌∷◌,
  ◌++◌, ◌≡◌, refl, length, length-append, ltb, arith, inl, inr, Bool-cases, ◌⊎◌, ◌∙◌, sym, ap,
}
use native.Mathlib.Decide.{dec_le}
use mathlib.Core.List.{append-nil, append_assoc}
use agentic_ml_engineering_l.Ingestor.{Settings, Message}

-- What `consumer.poll` returns: None, the end of a partition, another error, or a message.
pub data Polled (B : Type 0) : Type 0 where
  nothing : Polled B
  partition_eof : Polled B
  error : String → Polled B
  arrived : Message B → Polled B

-- The clock at the test, whether the stop event is set, and what the poll returns.
pub record Turn (B : Type 0) : Type 0 where
  pub time : ℕ
  pub stopping : Bool
  pub polled : Polled B

module _ {B : Type 0} where
  -- An error is logged, unless it is the end of a partition; only a message is kept.
  abbrev pub keep : List (Message B) → Polled B → List (Message B)
  keep batch (arrived m) = batch ++ m ∷ []
  keep batch nothing = batch
  keep batch partition_eof = batch
  keep batch (error text) = batch

  -- The loop; `none` says that the list of turns is too short.
  unfoldable pub poll_loop : ℕ → ℕ → List (Message B) → List (Turn B) → Option (List (Message B))
  poll_loop size deadline batch [] = none
  poll_loop size deadline batch (t ∷ turns) =
      elim (ltb (length batch) size && ltb t.time deadline) [
        | false ↦ some batch
        | true ↦ elim t.stopping [
          | true ↦ some batch
          | false ↦ poll_loop size deadline (keep batch t.polled) turns
        ]
      ]

  unfoldable pub poll_batch : Settings → ℕ → List (Turn B) → Option (List (Message B))
  unfolding poll_loop
  poll_batch s now turns = poll_loop s.batch_size (now + s.batch_timeout) [] turns

  abbrev pub message_of : Polled B → List (Message B)
  message_of (arrived m) = m ∷ []
  message_of nothing = []
  message_of partition_eof = []
  message_of (error text) = []

  -- The messages of the first turns.
  abbrev pub arrivals : ℕ → List (Turn B) → List (Message B)
  arrivals n [] = []
  arrivals zero (t ∷ turns) = []
  arrivals (suc n) (t ∷ turns) = message_of t.polled ++ arrivals n turns

  keep-append : (batch : List (Message B)) (p : Polled B) → keep batch p ≡ batch ++ message_of p
  keep-append batch (arrived m) = refl
  keep-append batch nothing = sym (append-nil batch)
  keep-append batch partition_eof = sym (append-nil batch)
  keep-append batch (error text) = sym (append-nil batch)

  length-keep-le :
      (batch : List (Message B)) (p : Polled B) → length (keep batch p) ≤ length batch + 1
  length-keep-le batch (arrived m) = omega (arith, length-append batch (m ∷ []))
  length-keep-le batch nothing = omega arith
  length-keep-le batch partition_eof = omega arith
  length-keep-le batch (error text) = omega arith

  abbrev pub Expires : ℕ → Turn B → Type 0
  Expires deadline t = (t.stopping ≡ true) ⊎ (deadline ≤ t.time)

  -- Some turn at which the clock has passed the deadline, or the stop event is set.
  abbrev pub Ends : ℕ → List (Turn B) → Type 0
  Ends deadline [] = ⊥
  Ends deadline (t ∷ turns) = Expires deadline t ⊎ Ends deadline turns

  -- The first turns of a number begin before the deadline, with the stop event not set.
  abbrev pub Taken : ℕ → ℕ → List (Turn B) → Type 0
  Taken deadline zero turns = Unit
  Taken deadline (suc n) [] = ⊥
  Taken deadline (suc n) (t ∷ turns) =
      (t.stopping ≡ false) × (t.time < deadline) × Taken deadline n turns

  -- The turn behind the first n is at the deadline, or the stop event is set there.
  abbrev pub ExpiresAfter : ℕ → ℕ → List (Turn B) → Type 0
  ExpiresAfter deadline n [] = ⊥
  ExpiresAfter deadline zero (t ∷ turns) = Expires deadline t
  ExpiresAfter deadline (suc n) (t ∷ turns) = ExpiresAfter deadline n turns

  -- The result of the loop: every message of its first n turns behind what there was, no more than
  -- fit; each of the n turns begins before the deadline and with no stop; and behind them the batch
  -- is full, or the next turn is at the deadline or stopped.
  unfoldable pub Fits : ℕ → ℕ → List (Message B) → List (Turn B) → List (Message B) → Type 0
  Fits size deadline batch turns result =
      (n : ℕ) × (result ≡ batch ++ arrivals n turns)
      × Taken deadline n turns
      × (length result ≤ size)
      × ((length result ≡ size) ⊎ ExpiresAfter deadline n turns)

  Fits-now :
      (size deadline : ℕ) (batch : List (Message B)) (t : Turn B) (turns : List (Turn B))
      → length batch ≤ size
      → (length batch ≡ size) ⊎ Expires deadline t
      → Fits size deadline batch (t ∷ turns) batch
  unfolding Fits
  Fits-now size deadline batch t turns h e = (0, sym (append-nil batch), tt, h, e)

  Fits-later :
      (size deadline : ℕ) (batch : List (Message B)) (t : Turn B) (turns : List (Turn B))
      (result : List (Message B))
      → t.stopping ≡ false
      → t.time < deadline
      → Fits size deadline (keep batch t.polled) turns result
      → Fits size deadline batch (t ∷ turns) result
  unfolding Fits
  Fits-later size deadline batch t turns result on before (n, e, taken, l, end) = (
    suc n,
    e
        ∙ ap (λ h. h ++ arrivals n turns) (keep-append batch t.polled)
        ∙ append_assoc batch (message_of t.polled) (arrivals n turns),
    (on, before, taken),
    l,
    end,
  )

  -- The three ways through a turn.
  poll_loop_full :
      (size deadline : ℕ) (batch : List (Message B)) (t : Turn B) (turns : List (Turn B))
      → (ltb (length batch) size && ltb t.time deadline) ≡ false
      → poll_loop size deadline batch (t ∷ turns) ≡ some batch
  unfolding poll_loop
  poll_loop_full size deadline batch t turns h = rw (h, poll_loop)

  poll_loop_stop :
      (size deadline : ℕ) (batch : List (Message B)) (t : Turn B) (turns : List (Turn B))
      → (ltb (length batch) size && ltb t.time deadline) ≡ true
      → t.stopping ≡ true
      → poll_loop size deadline batch (t ∷ turns) ≡ some batch
  unfolding poll_loop
  poll_loop_stop size deadline batch t turns h k = rw (h, k, poll_loop)

  poll_loop_next :
      (size deadline : ℕ) (batch : List (Message B)) (t : Turn B) (turns : List (Turn B))
      → (ltb (length batch) size && ltb t.time deadline) ≡ true
      → t.stopping ≡ false
      → poll_loop size deadline batch (t ∷ turns)
        ≡ poll_loop size deadline (keep batch t.polled) turns
  unfolding poll_loop
  poll_loop_next size deadline batch t turns h k = rw (h, k, poll_loop)

  Ends-later :
      (deadline : ℕ) (t : Turn B) (turns : List (Turn B)) (b : Bool)
      → (b && ltb t.time deadline) ≡ true
      → t.stopping ≡ false
      → Ends deadline (t ∷ turns)
      → Ends deadline turns
  Ends-later deadline t turns b h k (inl (inl stop)) = cc
  Ends-later deadline t turns b h k (inl (inr late)) = absurd (ground arith)
  Ends-later deadline t turns b h k (inr later) = later

  -- A test that fails: the batch is full, or the deadline has passed.
  stops :
      (size n deadline : ℕ) (t : Turn B)
      → n ≤ size
      → (ltb n size && ltb t.time deadline) ≡ false
      → (n ≡ size) ⊎ Expires deadline t
  stops size n deadline t h e = elim (dec_le size n) [
    | yes full ↦ inl (omega arith)
    | no more ↦ inr (inr (ground arith))
  ]

  poll_loop-Fits :
      (size deadline : ℕ) (batch : List (Message B)) (turns : List (Turn B))
      → length batch ≤ size
      → Ends deadline turns
      → (result : List (Message B)) × (poll_loop size deadline batch turns ≡ some result)
        × Fits size deadline batch turns result
  poll_loop-Fits size deadline batch [] h e = elim e [ ]
  poll_loop-Fits size deadline batch (t ∷ turns) h e =
      elim (Bool-cases (ltb (length batch) size && ltb t.time deadline)) [
        | inr stop ↦ (
          batch,
          poll_loop_full size deadline batch t turns stop,
          Fits-now size deadline batch t turns h (stops size (length batch) deadline t h stop),
        )
        | inl go ↦ elim (Bool-cases t.stopping) [
          | inl stop ↦ (
            batch,
            poll_loop_stop size deadline batch t turns go stop,
            Fits-now size deadline batch t turns h (inr (inl stop)),
          )
          | inr on ↦
              let (result, q, f) =
                poll_loop-Fits size deadline (keep batch t.polled) turns
                  (ground (arith, length-keep-le batch t.polled))
                  (Ends-later deadline t turns (ltb (length batch) size) go on e) in
              (
                result,
                poll_loop_next size deadline batch t turns go on ∙ q,
                Fits-later size deadline batch t turns result on (ground arith) f,
              )
        ]
      ]

-- If the deadline passes or the stop event is set at some turn, `_poll_batch` returns: every message
-- that the turns it takes poll, in their order, with no error among them and at most `batch_size` of
-- them. Each turn it takes begins before the deadline and with the stop event not set, and it takes no
-- further turn only because the batch is full, or because the next one is at the deadline or stopped.
pub poll_batch-Fits :
    {B : Type 0} (s : Settings) (now : ℕ) (turns : List (Turn B))
    → Ends (now + s.batch_timeout) turns
    → (result : List (Message B)) × (poll_batch s now turns ≡ some result)
      × Fits s.batch_size (now + s.batch_timeout) [] turns result
unfolding poll_batch
poll_batch-Fits s now turns e =
    poll_loop-Fits s.batch_size (now + s.batch_timeout) [] turns (omega arith) e
