-- ===== src/Ingestor/Write/Retry.antt =====
-- consumer.py, `_write_with_retry`: the retries end, and what each end leaves behind.
use agentic_ml_engineering_l.Base.{
  ℕ, zero, suc, ◌+◌, ◌*◌, ◌^◌, ◌≤◌, ◌<◌, ◌≡◌, refl, ◌∙◌, true, false, Option, none, some, List, [],
  ◌∷◌, ltb, Exc, Result, ok, raise, arith, inl, inr, ◌⊎◌, Bool-cases, ltb→lt,
}
use agentic_ml_engineering_l.Db.Session.{close}
use native.Mathlib.Nat.{pow-le-pow_right, two-pow-succ}
use native.Mathlib.Numerals.{towards_suc}
use agentic_ml_engineering_l.Ingestor.{
  Settings, Row, External, Tables, Counters, World, WriteErrors, Env,
}
use agentic_ml_engineering_l.Ingestor.Write.{
  Written, insert_table, after_features, write_body, write_batch, after_write, after_failure,
  write_loop, after_attempt, write_with_retry,
}

module _ {B R D T : Type 0} (x : External B R D T) where
  -- The table after its turn: with no rows there is no statement.
  abbrev pub store : List (Row R D) → T → T
  store [] t = t
  store (r ∷ rows) t = (x.landing.insert (r ∷ rows) t).1

  abbrev pub stored : List (Row R D) → List (Row R D) → Tables T → Tables T
  stored f l d = record { features = store f d.features; labels = store l d.labels }

  insert_table_cases :
      (error : Option Exc) (rows : List (Row R D)) (t : T) (c : Counters)
      → ((c' : Counters) × (insert_table x error rows t c ≡ (ok tt, store rows t, c')))
        ⊎ ((e : Exc) × (insert_table x error rows t c ≡ (raise e, t, c)))
  unfolding insert_table
  insert_table_cases error [] t c = inl (c, refl)
  insert_table_cases (some e) (r ∷ rows) t c = inr (e, refl)
  insert_table_cases none (r ∷ rows) t c = inl (_, refl)

  write_body_cases :
      (errors : WriteErrors) (f l : List (Row R D)) (d : Tables T) (c : Counters)
      → ((c' : Counters) × (write_body x errors f l d c ≡ (ok tt, stored f l d, c')))
        ⊎ ((e : Exc) × (d' : Tables T) × (c' : Counters) × (write_body x errors f l d c
              ≡ (raise e, d', c')))
  unfolding write_body
  write_body_cases errors f l d c =
      elim (insert_table_cases errors.features_insert f d.features c) [
        | inr (e, p) ↦ inr (e, d, c, rw (p, after_features))
        | inl (c1, p) ↦ elim (insert_table_cases errors.labels_insert l d.labels c1) [
          | inr (e, q) ↦
              inr (e, record d { features = store f d.features }, c1, rw (p, after_features, q))
          | inl (c2, q) ↦ inl (c2, rw (p, after_features, q))
        ]
      ]

  write_batch_lem :
      (errors : WriteErrors) (f l : List (Row R D)) (d : Tables T) (c : Counters)
      → write_batch x errors f l d c ≡ close d errors.commit (write_body x errors f l d c)
  unfolding write_batch
  write_batch_lem errors f l d c = refl

  close_cases :
      (commit : Option Exc) (d d' : Tables T) (c' : Counters)
      → ((close d commit (ok tt, d', c')) ≡ (ok tt, d', c'))
        ⊎ ((e : Exc) × (close d commit (ok tt, d', c') ≡ (raise e, d, c')))
  unfolding close
  close_cases none d d' c' = inl refl
  close_cases (some e) d d' c' = inr (e, refl)

  -- One attempt stores every row, or raises and stores none.
  pub write_batch_cases :
      (errors : WriteErrors) (f l : List (Row R D)) (d : Tables T) (c : Counters)
      → ((c' : Counters) × (write_batch x errors f l d c ≡ (ok tt, stored f l d, c')))
        ⊎ ((e : Exc) × (c' : Counters) × (write_batch x errors f l d c ≡ (raise e, d, c')))
  write_batch_cases errors f l d c = elim (write_body_cases errors f l d c) [
    | inr (e, d', c', p) ↦
        inr (e, c', rw (write_batch_lem errors f l d c, p) (unfold close in refl))
    | inl (c', p) ↦ elim (close_cases errors.commit d (stored f l d) c') [
      | inl q ↦ inl (c', rw (write_batch_lem errors f l d c, p) q)
      | inr (e, q) ↦ inr (e, c', rw (write_batch_lem errors f l d c, p) q)
    ]
  ]

-- What a call of `_write_with_retry` does not touch.
pub record SameRest {T : Type 0} (w v : World T) : Type 0 where
  pub dlq : v.dlq ≡ w.dlq
  pub reports : v.reports ≡ w.reports
  pub commits : v.commits ≡ w.commits
  pub commit_failures : v.commit_failures ≡ w.commit_failures
  pub last_commit_error : v.last_commit_error ≡ w.last_commit_error

same :
    {T : Type 0} {w : World T} {d : Tables T} {c : Counters}
    → SameRest w (record w { tables = d; counters = c })
same = record {
  dlq = refl;
  reports = refl;
  commits = refl;
  commit_failures = refl;
  last_commit_error = refl;
}

module _ {B R D T : Type 0} (x : External B R D T) (s : Settings) (env : Env)
    (f l : List (Row R D)) where
  -- A return has stored every row; a raise has stored none, and comes after `max_retries` retries.
  abbrev pub Ends : World T → Written T → Result (Unit {0}) → Type 0
  Ends w r (ok _) = r.world.tables ≡ stored x f l w.tables
  Ends w r (raise e) = (r.world.tables ≡ w.tables) × (r.attempts ≡ s.max_retries + 1)

  pub record Outcome (w : World T) (r : Written T) : Type 0 where
    pub ends : Ends w r r.result
    pub rest : SameRest w r.world
    pub attempts_bound : r.attempts ≤ s.max_retries + 1
    pub slept_bound : r.slept + s.retry_backoff_base ≤ s.retry_backoff_base * 2 ^ s.max_retries

  -- The three ways through a round.
  write_loop_done :
      (fuel attempt slept : ℕ) (w : World T) {d : Tables T} {c : Counters}
      → write_batch x (env.write_errors attempt) f l w.tables w.counters ≡ (ok tt, d, c)
      → write_loop x s env f l (suc fuel) attempt slept w
        ≡ some (record {
          result = ok tt;
          world = after_write x w d c;
          attempts = attempt + 1;
          slept = slept;
        })
  unfolding write_loop
  write_loop_done fuel attempt slept w p = rw (p, after_attempt)

  write_loop_exhausted :
      (fuel attempt slept : ℕ) (w : World T) {d : Tables T} {c : Counters} {e : Exc}
      → write_batch x (env.write_errors attempt) f l w.tables w.counters ≡ (raise e, d, c)
      → ltb s.max_retries (attempt + 1) ≡ true
      → write_loop x s env f l (suc fuel) attempt slept w
        ≡ some (record {
          result = raise e;
          world = after_failure x w d c;
          attempts = attempt + 1;
          slept = slept;
        })
  unfolding write_loop
  write_loop_exhausted fuel attempt slept w p h = rw (p, after_attempt, h)

  write_loop_retry :
      (fuel attempt slept : ℕ) (w : World T) {d : Tables T} {c : Counters} {e : Exc}
      → write_batch x (env.write_errors attempt) f l w.tables w.counters ≡ (raise e, d, c)
      → ltb s.max_retries (attempt + 1) ≡ false
      → write_loop x s env f l (suc fuel) attempt slept w
        ≡ write_loop x s env f l fuel
            (attempt + 1)
            (slept + s.retry_backoff_base * 2 ^ attempt)
            (after_failure x w d c)
  unfolding write_loop
  write_loop_retry fuel attempt slept w p h = rw (p, after_attempt, h)

  backoff_bound :
      (attempt slept : ℕ)
      → attempt ≤ s.max_retries
      → slept + s.retry_backoff_base ≡ s.retry_backoff_base * 2 ^ attempt
      → slept + s.retry_backoff_base ≤ s.retry_backoff_base * 2 ^ s.max_retries
  backoff_bound attempt slept a e = let p = pow-le-pow_right {n = 2} (omega arith) a in grind arith

  backoff_step :
      (attempt slept : ℕ)
      → slept + s.retry_backoff_base ≡ s.retry_backoff_base * 2 ^ attempt
      → slept + s.retry_backoff_base * 2 ^ attempt + s.retry_backoff_base
        ≡ s.retry_backoff_base * 2 ^ (attempt + 1)
  backoff_step attempt slept e = simp towards_suc (rw (two-pow-succ attempt) (omega arith))

  write_loop_total :
      (fuel attempt slept : ℕ) (w : World T)
      → attempt ≤ s.max_retries
      → s.max_retries < fuel + attempt
      → slept + s.retry_backoff_base ≡ s.retry_backoff_base * 2 ^ attempt
      → (r : Written T) × (write_loop x s env f l fuel attempt slept w ≡ some r) × Outcome w r
  write_loop_total zero attempt slept w a h e = absurd (omega arith)
  write_loop_total (suc fuel) attempt slept w a h e =
      elim (write_batch_cases x (env.write_errors attempt) f l w.tables w.counters) [
        | inl (c, p) ↦ (
          _,
          write_loop_done fuel attempt slept w p,
          record {
            ends = refl;
            rest = same;
            attempts_bound = omega arith;
            slept_bound = backoff_bound attempt slept a e;
          },
        )
        | inr (exc, c, p) ↦ elim (Bool-cases (ltb s.max_retries (attempt + 1))) [
          | inl last ↦ (
            _,
            write_loop_exhausted fuel attempt slept w p last,
            record {
              ends = (refl, omega (arith, ltb→lt s.max_retries (attempt + 1) last));
              rest = same;
              attempts_bound = omega arith;
              slept_bound = backoff_bound attempt slept a e;
            },
          )
          | inr more ↦
              let (r, q, o) =
                write_loop_total fuel (attempt + 1) (slept + s.retry_backoff_base * 2 ^ attempt)
                  (after_failure x w w.tables c) (ground arith) (omega arith)
                  (backoff_step attempt slept e) in
              (
                r,
                write_loop_retry fuel attempt slept w p more ∙ q,
                record {
                  ends = o.ends;
                  rest = record {
                    dlq = o.rest.dlq;
                    reports = o.rest.reports;
                    commits = o.rest.commits;
                    commit_failures = o.rest.commit_failures;
                    last_commit_error = o.rest.last_commit_error;
                  };
                  attempts_bound = o.attempts_bound;
                  slept_bound = o.slept_bound;
                },
              )
        ]
      ]

  loop_from_start :
      (w : World T)
      → (r : Written T) × (write_loop x s env f l (s.max_retries + 1) 0 0 w ≡ some r) × Outcome w r
  loop_from_start w =
      write_loop_total (s.max_retries + 1) 0 0 w (omega arith) (omega arith) (omega arith)

  -- There is nothing to write: no attempt is made.
  nothing_to_write :
      (w : World T)
      → w.tables ≡ stored x f l w.tables
      → Outcome w (record { result = ok tt; world = w; attempts = 0; slept = 0 })
  nothing_to_write w h = record {
    ends = h;
    rest = same;
    attempts_bound = omega arith;
    slept_bound = backoff_bound 0 0 (omega arith) (omega arith);
  }

module _ {B R D T : Type 0} (x : External B R D T) (s : Settings) (env : Env) where
  -- With any errors at any attempt, `_write_with_retry` ends: with a return, and then every row is
  -- stored; or with a raise, and then no row is stored and `max_retries + 1` attempts were made.
  -- There are at most `max_retries + 1` attempts, the time slept is at most
  -- `retry_backoff_base * (2 ^ max_retries - 1)`, and the dead letters and commits stay.
  pub write_with_retry_total :
      (f l : List (Row R D)) (w : World T)
      → (r : Written T) × (write_with_retry x s env f l w ≡ some r) × Outcome x s env f l w r
  unfolding write_with_retry
  write_with_retry_total [] [] w = (_, refl, nothing_to_write x s env [] [] w refl)
  write_with_retry_total [] (row ∷ l) w = loop_from_start x s env [] (row ∷ l) w
  write_with_retry_total (row ∷ f) l w = loop_from_start x s env (row ∷ f) l w
