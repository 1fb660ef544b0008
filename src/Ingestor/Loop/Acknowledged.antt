-- ===== src/Ingestor/Loop/Acknowledged.antt =====
-- consumer.py, `_run`: the delivery model of the module's docstring, over the life of the loop.
use agentic_ml_engineering_l.Base.{
  true, Option, none, some, List, [], ◌∷◌, ◌++◌, map, ◌≡◌, refl, sym, ap, subst, ◌∙◌, Result, ok,
  raise, In, All, All-map, All-append, inl, inr, ◌⊎◌, ℕ,
}
use agentic_ml_engineering_l.Db.Upsert.{Holds, Holds-insert}
use agentic_ml_engineering_l.Ingestor.{Settings, Message, Row, Envelope, External, World, Env, Key}
use agentic_ml_engineering_l.Ingestor.Write.Retry.{Ends, store}
use agentic_ml_engineering_l.Ingestor.Batch.{Progress, process_batch, collect, next_offsets}
use agentic_ml_engineering_l.Ingestor.Batch.Handled.{Taken-mono, Handled}
use agentic_ml_engineering_l.Ingestor.Batch.Grows.{Grows, IsReported}
use agentic_ml_engineering_l.Ingestor.Batch.Collect.{collect-Grows}
use agentic_ml_engineering_l.Ingestor.Batch.Commit.{
  Course, unread, unwritten, written, start, process_batch-Course, commit_offsets-Keeps,
}
use agentic_ml_engineering_l.Ingestor.Batch.Promise.{
  Promise, Below, process_batch_promises, Course-IsReported, tables_stored,
}
use agentic_ml_engineering_l.Ingestor.Loop.{
  Round, Loop, Turned, goes_on, ends, die, advance, turn, after_poll, after_batch, run,
}

module _ {B R D T : Type 0} (x : External B R D T) where
  -- No row and no dead letter is lost, and the dead letters keep having reports.
  pub record Later (w v : World T) : Type 0 where
    pub features :
        (r : Row R D) → Holds x.landing w.tables.features r → Holds x.landing v.tables.features r
    pub labels :
        (r : Row R D) → Holds x.landing w.tables.labels r → Holds x.landing v.tables.labels r
    pub letters : (letter : Envelope) → In letter w.dlq → In letter v.dlq
    pub reported : IsReported w → IsReported v

  Later-refl : (w : World T) → Later w w
  Later-refl w = record {
    features = λ r h. h;
    labels = λ r h. h;
    letters = λ d i. i;
    reported = λ h. h;
  }

  Later-trans : {u v w : World T} → Later u v → Later v w → Later u w
  Later-trans a b = record {
    features = λ r h. b.features r (a.features r h);
    labels = λ r h. b.labels r (a.labels r h);
    letters = λ d i. b.letters d (a.letters d i);
    reported = λ h. b.reported (a.reported h);
  }

  Handled-Later :
      (s : Settings) {w v : World T} (m : Message B) → Later w v → Handled x s w m → Handled x s v m
  Handled-Later s {w} {v} m a h =
      Taken-mono x s (Holds x.landing w.tables.features) (Holds x.landing w.tables.labels)
        (Holds x.landing v.tables.features) (Holds x.landing v.tables.labels) w.dlq v.dlq a.features
        a.labels a.letters m h

  Holds-store_old :
      (rows : List (Row R D)) (t : T) (r : Row R D)
      → Holds x.landing t r
      → Holds x.landing (store x rows t) r
  Holds-store_old [] t r h = h
  Holds-store_old (a ∷ rows) t r h = Holds-insert x.landing (a ∷ rows) t r h

module _ {B R D T : Type 0} (x : External B R D T) (s : Settings) where
  module _ (env : Env) where
    collected-Grows :
        (batch : List (Message B)) (w : World T) (r : Result (Unit {0})) (p : Progress R D T)
        → collect x s env batch (start x s env w) ≡ (r, p)
        → Grows (start x s env w) p
    collected-Grows batch w r p h =
        subst (λ (c : Result (Unit {0}) × Progress R D T). Grows (start x s env w) c.1) h
          (collect-Grows x s env batch (start x s env w))

    abbrev LaterIf : World T → Option (Result (Unit {0}) × World T) → Type 0
    LaterIf w none = Unit
    LaterIf w (some (a, v)) = Later x w v

    same-Later :
        (w v : World T)
        → v.tables ≡ w.tables
        → ((letter : Envelope) → In letter w.dlq → In letter v.dlq)
        → (IsReported w → IsReported v)
        → Later x w v
    same-Later w v e f k = record {
      features = λ r h. rw e h;
      labels = λ r h. rw e h;
      letters = f;
      reported = k;
    }

    -- A batch loses nothing, on each of its courses.
    Course-Later :
        (batch : List (Message B)) (w : World T) {c : Option (Result (Unit {0}) × World T)}
        → Course x s env batch w c
        → LaterIf w c
    Course-Later batch w (unread e p h) =
        let g = collected-Grows batch w (raise e) p h in
        same-Later w p.world g.tables g.letters g.reported
    Course-Later batch w (unwritten e p r h o f) =
        let g = collected-Grows batch w (ok tt) p h in
        let end = subst (Ends x s env p.features_rows p.labels_rows p.world r) f o.ends in
        same-Later w r.world (end.0 ∙ g.tables) (λ d i. rw o.rest.dlq (g.letters d i))
          (λ k. Course-IsReported x s env batch w (unwritten e p r h o f) k _ _ refl)
    Course-Later batch w (written p r h o f) =
        let g = collected-Grows batch w (ok tt) p h in
        let k = commit_offsets-Keeps x s env (next_offsets p.max_offset) env.commit_error r.world in
        let t = k.tables ∙ tables_stored x s env batch w p r h o f in
        record {
          features =
              λ a i. rw (t, g.tables) (Holds-store_old x p.features_rows w.tables.features a i);
          labels = λ a i. rw (t, g.tables) (Holds-store_old x p.labels_rows w.tables.labels a i);
          letters = λ d i. rw (k.dlq, o.rest.dlq) (g.letters d i);
          reported = λ k. Course-IsReported x s env batch w (written p r h o f) k _ _ refl;
        }

    process_batch-Later :
        (batch : List (Message B)) (w v : World T) {a : Result (Unit {0})}
        → process_batch x s env batch w ≡ some (a, v)
        → Later x w v
    process_batch-Later batch w v q =
        subst (LaterIf w) q (Course-Later batch w (process_batch-Course x s env batch w))

  -- Offsets that the broker has accepted for a batch, whose messages are handled and lie below them.
  abbrev pub Kept : World T → List (Key × ℕ) × List (Message B) → Type 0
  Kept v (offsets, batch) = All (Handled x s v) batch × All (Below offsets) batch

  Kept-Later :
      {w v : World T} (a : List (Key × ℕ) × List (Message B)) → Later x w v → Kept w a → Kept v a
  Kept-Later {w} {v} (offsets, batch) l (h, b) =
      (All-map (Handled x s w) (Handled x s v) batch (λ m k. Handled-Later x s m l k) h, b)

  -- What a turn does to the world: it loses nothing, and if offsets were committed, they were for
  -- the batch of the turn.
  abbrev pub Step : Round B → World T → World T → Type 0
  Step r w v =
      Later x w v
      × ((v.commits ≡ w.commits)
          ⊎ ((a : List (Key × ℕ) × List (Message B)) × (r.polled ≡ ok a.1)
              × (v.commits ≡ a.0 ∷ w.commits)
              × Kept v a))

  abbrev StepOf : Round B → World T → Turned T → Type 0
  StepOf r w (goes_on l) = Step r w l.world
  StepOf r w (ends l) = Step r w l.world × (l.closed ≡ true)

  process_batch-Step :
      (r : Round B) (batch : List (Message B)) (w v : World T) (a : Result (Unit {0}))
      → r.polled ≡ ok batch
      → process_batch x s r.env batch w ≡ some (a, v)
      → Promise x s r.env batch w v
      → Step r w v
  process_batch-Step r batch w v a e q (inl c) = (process_batch-Later r.env batch w v q, inl c)
  process_batch-Step r batch w v a e q (inr (offsets, c, n, h, b)) =
      (process_batch-Later r.env batch w v q, inr ((offsets, batch), e, c, (h, b)))

  after_batch-Step :
      (r : Round B) (l : Loop T) (a : Result (Unit {0})) (v : World T)
      → Step r l.world v
      → (t : Turned T) × (after_batch x s l r.now (some (a, v)) ≡ some t) × StepOf r l.world t
  unfolding after_batch die
  after_batch-Step r l (ok _) v h = (goes_on (advance l v r.now), refl, h)
  after_batch-Step r l (raise e) v h = (ends (die l v e), refl, (h, refl))

  after_poll-Step :
      (r : Round B) (l : Loop T) (p : Result (List (Message B)))
      → r.polled ≡ p
      → (t : Turned T) × (after_poll x s r.env r.now l p ≡ some t) × StepOf r l.world t
  after_poll-Step r l (raise e) h = (
    ends (die l l.world e),
    unfold after_poll in refl,
    (unfold die in (Later-refl x l.world, inl refl), unfold die in refl),
  )
  after_poll-Step r l (ok []) h = (
    goes_on (advance l l.world r.now),
    unfold after_poll in refl,
    (Later-refl x l.world, inl refl),
  )
  after_poll-Step r l (ok (m ∷ batch)) h =
      let (a, v, q, k) = process_batch_promises x s r.env (m ∷ batch) l.world in
      let (t, e, st) =
        after_batch-Step r l a v (process_batch-Step r (m ∷ batch) l.world v a h q k) in
      (t, unfold after_poll in (ap (after_batch x s l r.now) q ∙ e), st)

  turn-Step :
      (r : Round B) (l : Loop T) → (t : Turned T) × (turn x s r l ≡ some t) × StepOf r l.world t
  turn-Step r l = unfold turn in after_poll-Step r l r.polled refl

  -- Everything acknowledged in the rounds, newest first: the commits of the loop's life, each for
  -- a batch that was polled, and each kept at the end.
  abbrev pub Delivered : List (Round B) → List (Message B) → Type 0
  Delivered [] batch = ⊥
  Delivered (r ∷ rounds) batch = (r.polled ≡ ok batch) ⊎ Delivered rounds batch

  pub record Acknowledged (rounds : List (Round B)) (w v : World T) : Type 0 where
    pub acked : List (List (Key × ℕ) × List (Message B))
    pub commits : v.commits ≡ map (λ a. a.0) acked ++ w.commits
    pub kept : All (Kept v) acked
    pub polled : All (λ a. Delivered rounds a.1) acked
    pub later : Later x w v

  run_lem :
      (r : Round B) (rounds : List (Round B)) (l : Loop T) {t : Turned T}
      → turn x s r l ≡ some t
      → run x s (r ∷ rounds) l ≡ elim t [ ends l' ↦ some l' | goes_on l' ↦ run x s rounds l' ]
  run_lem r rounds l h = unfold run in rw (h, run)

  commits_snoc :
      (a : List (Key × ℕ) × List (Message B)) (acked : List (List (Key × ℕ) × List (Message B)))
      (w : List (List (Key × ℕ)))
      → map (λ a. a.0) (acked ++ a ∷ []) ++ w ≡ map (λ a. a.0) acked ++ a.0 ∷ w
  commits_snoc a [] w = refl
  commits_snoc a (b ∷ acked) w = ap (◌∷◌ b.0) (commits_snoc a acked w)

  Acknowledged-none :
      (rounds : List (Round B)) (w v : World T)
      → Later x w v
      → v.commits ≡ w.commits
      → Acknowledged rounds w v
  Acknowledged-none rounds w v l c = record {
    acked = [];
    commits = c;
    kept = tt;
    polled = tt;
    later = l;
  }

  Acknowledged-later :
      (r : Round B) (rounds : List (Round B)) (w u v : World T)
      → Step r w u
      → Acknowledged rounds u v
      → Acknowledged (r ∷ rounds) w v
  Acknowledged-later r rounds w u v (l, inl c) k = record {
    acked = k.acked;
    commits = k.commits ∙ ap (λ h. map (λ a. a.0) k.acked ++ h) c;
    kept = k.kept;
    polled =
        All-map (λ a. Delivered rounds a.1) (λ a. Delivered (r ∷ rounds) a.1) k.acked (λ a h. inr h)
          k.polled;
    later = Later-trans x l k.later;
  }
  Acknowledged-later r rounds w u v (l, inr (a, e, c, h)) k = record {
    acked = k.acked ++ a ∷ [];
    commits =
        k.commits
        ∙ ap (λ h. map (λ a. a.0) k.acked ++ h) c
        ∙ sym (commits_snoc a k.acked w.commits);
    kept = All-append (Kept v) k.acked (a ∷ []) k.kept (Kept-Later a k.later h, tt);
    polled =
        All-append (λ a. Delivered (r ∷ rounds) a.1) k.acked (a ∷ [])
          (All-map (λ a. Delivered rounds a.1) (λ a. Delivered (r ∷ rounds) a.1) k.acked
            (λ a h. inr h) k.polled)
          (inl e, tt);
    later = Later-trans x l k.later;
  }

  run_turned :
      (r : Round B) (rounds : List (Round B)) (l : Loop T) (t : Turned T)
      → turn x s r l ≡ some t
      → StepOf r l.world t
      → ((l' : Loop T)
          → (l'' : Loop T) × (run x s rounds l' ≡ some l'')
            × (l''.closed ≡ true)
            × Acknowledged rounds l'.world l''.world)
      → (l'' : Loop T) × (run x s (r ∷ rounds) l ≡ some l'')
        × (l''.closed ≡ true)
        × Acknowledged (r ∷ rounds) l.world l''.world
  run_turned r rounds l (goes_on l') h st f =
      let (l'', q, c, k) = f l' in
      (
        l'',
        run_lem r rounds l h ∙ q,
        c,
        Acknowledged-later r rounds l.world l'.world l''.world st k,
      )
  run_turned r rounds l (ends l') h (st, c) f = (
    l',
    run_lem r rounds l h,
    c,
    Acknowledged-later r rounds l.world l'.world l'.world st
        (Acknowledged-none rounds l'.world l'.world (Later-refl x l'.world) refl),
  )

  -- Over rounds whose calls all return or raise, with the stop event set after the last, the loop ends
  -- with the consumer closed, and what it acknowledged is kept: each commit of its life is for a batch
  -- that it polled, with offsets above its messages, and each of its messages that has a topic, a
  -- partition and an offset (the others are skipped) has at the end its row in the database or a dead
  -- letter that was handed to the producer. No row and no dead letter of before is lost; and where each
  -- letter before has a report of its delivery, possibly that it failed, each letter at the end has one.
  pub run-Acknowledged :
      (rounds : List (Round B)) (l : Loop T)
      → (l' : Loop T) × (run x s rounds l ≡ some l')
        × (l'.closed ≡ true)
        × Acknowledged rounds l.world l'.world
  run-Acknowledged [] l = (
    record l { closed = true },
    unfold run in refl,
    refl,
    Acknowledged-none [] l.world l.world (Later-refl x l.world) refl,
  )
  run-Acknowledged (r ∷ rounds) l =
      let (t, h, st) = turn-Step r l in
      run_turned r rounds l t h st (λ l'. run-Acknowledged rounds l')
