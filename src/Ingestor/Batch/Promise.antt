-- ===== src/Ingestor/Batch/Promise.antt =====
-- consumer.py: the delivery model of the module's docstring, for one batch.
use agentic_ml_engineering_l.Base.{
  ℕ, ◌+◌, ◌<◌, String, Option, none, some, List, [], ◌∷◌, ◌≡◌, refl, subst, ◌∙◌, Exc,
  kafka_exception, Result, ok, raise, In, All, All-map, arith, inl, inr, ◌⊎◌, ap,
}
use agentic_ml_engineering_l.Base.Dict.{Dict, get}
use agentic_ml_engineering_l.Base.Equality.{string_eq, nat_eq, pair_eq}
use agentic_ml_engineering_l.Db.Upsert.{Holds}
use agentic_ml_engineering_l.Ingestor.{Settings, Message, External, World, Env, Key}
use agentic_ml_engineering_l.Ingestor.Write.{Written}
use agentic_ml_engineering_l.Ingestor.Write.Retry.{Outcome, Ends, stored}
use agentic_ml_engineering_l.Ingestor.Batch.{
  Progress, collect, next_offsets, commit_offsets, process_batch,
}
use agentic_ml_engineering_l.Ingestor.Batch.Handled.{Taken-mono, Handled}
use agentic_ml_engineering_l.Ingestor.Batch.Grows.{Grows, OnReturn, IsReported}
use agentic_ml_engineering_l.Ingestor.Batch.Collect.{Passed, Tracked, collect-Grows, collect-Passed}
use agentic_ml_engineering_l.Ingestor.Batch.Commit.{
  Course, unread, unwritten, written, start, process_batch-Course, Keeps, Holds-store,
  commit_offsets-Keeps,
}

-- The message's offset lies below the one committed for its partition.
abbrev pub BelowAt : List (Key × ℕ) → Option String → Option ℕ → Option ℕ → Type 0
BelowAt offsets (some t) (some k) (some o) = (n : ℕ) × (get (t, k) offsets ≡ some n) × (o < n)
BelowAt offsets _ _ _ = Unit

abbrev pub Below : {B : Type 0} → List (Key × ℕ) → Message B → Type 0
Below offsets m = BelowAt offsets m.topic m.partition m.offset

get-next_offsets :
    (key : Key) (n : ℕ) (d : Dict Key ℕ)
    → get key d ≡ some n
    → get key (next_offsets d) ≡ some (n + 1)
unfolding get next_offsets
get-next_offsets key n [] e = cc
get-next_offsets key n ((j, m) ∷ d) e = ground (arith, get-next_offsets key n d)

module _ {B R D T : Type 0} (x : External B R D T) (s : Settings) (env : Env) where
  -- What the loop has done of every message, where it returned.
  pub All-Passed :
      (batch : List (Message B)) (w : World T) (p : Progress R D T)
      → collect x s env batch (start x s env w) ≡ (ok tt, p)
      → All (Passed x s env p) batch
  All-Passed batch w p h =
      subst (OnReturn (λ q. All (Passed x s env q) batch)) h
        (collect-Passed x s env batch (start x s env w))

  module _ (batch : List (Message B)) (w : World T) (p : Progress R D T) (r : Written T)
      (h : collect x s env batch (start x s env w) ≡ (ok tt, p))
      (o : Outcome x s env p.features_rows p.labels_rows p.world r) (e : r.result ≡ ok tt) where
    passed : All (Passed x s env p) batch
    passed = All-Passed batch w p h

    pub grown : Grows (start x s env w) p
    grown =
        subst (λ (c : Result (Unit {0}) × Progress R D T). Grows (start x s env w) c.1) h
          (collect-Grows x s env batch (start x s env w))

    pub tables_stored : r.world.tables ≡ stored x p.features_rows p.labels_rows p.world.tables
    tables_stored = subst (Ends x s env p.features_rows p.labels_rows p.world r) e o.ends

    -- What the loop staged, the write stored, and the commit left.
    All-Handled : (v : World T) → Keeps r.world v → All (Handled x s v) batch
    All-Handled v k =
        let t = k.tables ∙ tables_stored in
        All-map (Passed x s env p) (Handled x s v) batch
          (λ m c.
            Taken-mono x s (λ a. In a p.features_rows) (λ a. In a p.labels_rows)
              (Holds x.landing v.tables.features) (Holds x.landing v.tables.labels) p.world.dlq
              v.dlq (λ a i. rw t (Holds-store x s env p.features_rows p.world.tables.features a i))
              (λ a i. rw t (Holds-store x s env p.labels_rows p.world.tables.labels a i))
              (λ d i. rw (k.dlq ∙ o.rest.dlq) i) m c.0)
          passed

    All-Below : All (Below (next_offsets p.max_offset)) batch
    All-Below =
        All-map (Passed x s env p) (Below (next_offsets p.max_offset)) batch
          (λ m c. position_below m.topic m.partition m.offset c.1) passed
      where
        position_below :
            (t : Option String) (k i : Option ℕ)
            → Tracked x s env p t k i
            → BelowAt (next_offsets p.max_offset) t k i
        position_below (some t) (some k) (some i) (n, q, l) =
            (n + 1, get-next_offsets (t, k) n p.max_offset q, omega arith)
        position_below none k i c = tt
        position_below (some t) none i c = tt
        position_below (some t) (some k) none c = tt

    commits_before : r.world.commits ≡ w.commits
    commits_before = o.rest.commits ∙ grown.commits

  commit_offsets_commits :
      (offsets : List (Key × ℕ)) (error : Option Exc) (w : World T)
      → ((commit_offsets offsets error w).1.commits ≡ w.commits)
        ⊎ (((commit_offsets offsets error w).1.commits ≡ offsets ∷ w.commits)
            × ((commit_offsets offsets error w).1.last_commit_error ≡ none))
  unfolding commit_offsets
  commit_offsets_commits offsets none w = inr (refl, refl)
  commit_offsets_commits offsets (some (kafka_exception text)) w = inl refl
  commit_offsets_commits offsets (some _) w = inl refl

  -- Either the broker has no new offsets, or it has one new set of offsets, and then every message
  -- of the batch is handled and lies below the offset of its partition.
  abbrev pub Promise : List (Message B) → World T → World T → Type 0
  Promise batch w v =
      (v.commits ≡ w.commits)
      ⊎ ((offsets : List (Key × ℕ)) × (v.commits ≡ offsets ∷ w.commits)
          × (v.last_commit_error ≡ none)
          × All (Handled x s v) batch
          × All (Below offsets) batch)

  Course-Promise :
      (batch : List (Message B)) (w : World T) {c : Option (Result (Unit {0}) × World T)}
      → Course x s env batch w c
      → (a : Result (Unit {0})) × (v : World T) × (c ≡ some (a, v)) × Promise batch w v
  Course-Promise batch w (unread e p h) = (
    raise e,
    p.world,
    refl,
    inl
        (subst (λ (c : Result (Unit {0}) × Progress R D T). Grows (start x s env w) c.1) h
          (collect-Grows x s env batch (start x s env w))).commits,
  )
  Course-Promise batch w (unwritten e p r h o q) = (
    raise e,
    r.world,
    refl,
    inl (
        o.rest.commits
        ∙ (subst (λ (c : Result (Unit {0}) × Progress R D T). Grows (start x s env w) c.1) h
            (collect-Grows x s env batch (start x s env w))).commits),
  )
  Course-Promise batch w (written p r h o q) =
      let offsets = next_offsets p.max_offset in
      let before = commits_before batch w p r h o q in
      (
        _,
        _,
        refl,
        elim (commit_offsets_commits offsets env.commit_error r.world) [
          | inl c ↦ inl (c ∙ before)
          | inr (c, cleared) ↦ inr (
            offsets,
            c ∙ ap (◌∷◌ offsets) before,
            cleared,
            All-Handled batch w p r h o q _
                (commit_offsets-Keeps x s env offsets env.commit_error r.world),
            All-Below batch w p r h o q,
          )
        ],
      )

  pub Course-IsReported :
      (batch : List (Message B)) (w : World T) {c : Option (Result (Unit {0}) × World T)}
      → Course x s env batch w c
      → IsReported w
      → (a : Result (Unit {0})) (v : World T) → c ≡ some (a, v)
      → IsReported v
  Course-IsReported batch w {c} course h a v e = subst Final e (final course)
    where
      Final : Option (Result (Unit {0}) × World T) → Type 0
      Final none = Unit
      Final (some (b, u)) = IsReported u

      collected :
          (r : Result (Unit {0})) (p : Progress R D T)
          → collect x s env batch (start x s env w) ≡ (r, p)
          → IsReported p.world
      collected r p q =
          (subst (λ (d : Result (Unit {0}) × Progress R D T). Grows (start x s env w) d.1) q
              (collect-Grows x s env batch (start x s env w))).reported
            h

      final : {d : Option (Result (Unit {0}) × World T)} → Course x s env batch w d → Final d
      final (unread f p q) = collected _ p q
      final (unwritten f p r q o z) = rw (o.rest.dlq, o.rest.reports) (collected _ p q)
      final (written p r q o z) =
          let k =
            commit_offsets-Keeps x s env (next_offsets p.max_offset) env.commit_error r.world in
          rw (k.dlq, k.reports, o.rest.dlq, o.rest.reports) (collected _ p q)

  pub process_batch_promises :
      (batch : List (Message B)) (w : World T)
      → (a : Result (Unit {0})) × (v : World T) × (process_batch x s env batch w ≡ some (a, v))
        × Promise batch w v
  process_batch_promises batch w = Course-Promise batch w (process_batch-Course x s env batch w)

  -- Whatever the libraries' calls raise, a batch whose calls all return or raise ends. Offsets are
  -- committed only after every message of the batch that has a topic, a partition and an offset (the
  -- others are skipped) has its row in the database, or has been handed to the producer as a dead
  -- letter; and only with offsets above each of these messages. Where each dead letter before has a
  -- report of its delivery, possibly that it failed, each one after has one.
  pub process_batch-Promise :
      (batch : List (Message B)) (w : World T)
      → IsReported w
      → (a : Result (Unit {0})) × (v : World T) × (process_batch x s env batch w ≡ some (a, v))
        × Promise batch w v
        × IsReported v
  process_batch-Promise batch w h =
      let course = process_batch-Course x s env batch w in
      let (a, v, e, promise) = Course-Promise batch w course in
      (a, v, e, promise, Course-IsReported batch w course h a v e)
