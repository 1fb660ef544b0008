-- ===== src/Ingestor/Write.antt =====
-- consumer.py, `_write_batch` and `_write_with_retry`.
pub mod Retry
use agentic_ml_engineering_l.Base.{
  ℕ, zero, suc, ◌+◌, ◌-◌, ◌*◌, ◌^◌, Bool, true, false, Option, none, some, List, [], ◌∷◌, length,
  ltb, Exc, Result, ok, raise,
}
use agentic_ml_engineering_l.Db.Session.{Tx, session_scope}
use agentic_ml_engineering_l.Db.Upsert.{Upsert}
use agentic_ml_engineering_l.Ingestor.{
  Settings, Row, External, Tables, Counters, World, WriteErrors, Env,
}

-- How `_write_with_retry` ends: with the world after it, the attempts made and the time slept.
pub record Written (T : Type 0) : Type 0 where
  pub result : Result (Unit {0})
  pub world : World T
  pub attempts : ℕ
  pub slept : ℕ

module _ {B R D T : Type 0} (x : External B R D T) where
  -- One turn of the loop over the two tables.
  unfoldable pub insert_table : Option Exc → List (Row R D) → Tx T Counters (Unit {0})
  insert_table error [] t c = (ok tt, t, c)
  insert_table (some e) (r ∷ rows) t c = (raise e, t, c)
  insert_table none (r ∷ rows) t c =
      let (inserted, t') = x.landing.insert (r ∷ rows) t in
      (
        ok tt,
        t',
        record c {
          persisted = c.persisted + length inserted;
          duplicate_skipped = c.duplicate_skipped + (length (r ∷ rows) - length inserted);
        },
      )

  after_features :
      Option Exc → List (Row R D) → Result (Unit {0}) → Tx (Tables T) Counters (Unit {0})
  unfolding insert_table
  after_features error rows (raise e) d c = (raise e, d, c)
  after_features error rows (ok _) d c =
      let (r, t, c') = insert_table error rows d.labels c in (r, record d { labels = t }, c')

  write_body : WriteErrors → List (Row R D) → List (Row R D) → Tx (Tables T) Counters (Unit {0})
  unfolding insert_table after_features
  write_body errors features_rows labels_rows d c =
      let (r, t, c') = insert_table errors.features_insert features_rows d.features c in
      after_features errors.labels_insert labels_rows r (record d { features = t }) c'

  unfoldable pub write_batch :
      WriteErrors → List (Row R D) → List (Row R D) → Tx (Tables T) Counters (Unit {0})
  unfolding write_body session_scope
  write_batch errors features_rows labels_rows =
      session_scope (write_body errors features_rows labels_rows) errors.commit

  abbrev pub after_write : World T → Tables T → Counters → World T
  after_write w d c = record w { tables = d; counters = c }

  abbrev pub after_failure : World T → Tables T → Counters → World T
  after_failure w d c = record w {
    tables = d;
    counters = record c { db_write_failures = c.db_write_failures + 1 };
  }

  module _ (s : Settings) (env : Env) (features_rows labels_rows : List (Row R D)) where
    -- After one attempt; `again` is the next round.
    after_attempt :
        ℕ
        → ℕ
        → World T
        → (World T → Option (Written T))
        → Result (Unit {0}) × Tables T × Counters
        → Option (Written T)
    after_attempt attempt slept w again (ok _, d, c) = some (record {
      result = ok tt;
      world = after_write w d c;
      attempts = attempt + 1;
      slept = slept;
    })
    after_attempt attempt slept w again (raise e, d, c) = elim (ltb s.max_retries (attempt + 1)) [
      | true ↦ some (record {
        result = raise e;
        world = after_failure w d c;
        attempts = attempt + 1;
        slept = slept;
      })
      | false ↦ again (after_failure w d c)
    ]

    -- The `while True` loop, on fuel; `attempt` failures so far, `slept` the backoff so far.
    unfoldable pub write_loop : ℕ → ℕ → ℕ → World T → Option (Written T)
    unfolding after_attempt
    write_loop zero attempt slept w = none
    write_loop (suc fuel) attempt slept w =
        after_attempt attempt slept w
          (λ v. write_loop fuel (attempt + 1) (slept + s.retry_backoff_base * 2 ^ attempt) v)
          (write_batch (env.write_errors attempt) features_rows labels_rows w.tables w.counters)

    -- `_write_with_retry`; `max_retries + 1` rounds are enough (Write/Retry.antt).
    unfoldable pub write_with_retry : World T → Option (Written T)
    unfolding write_loop
    write_with_retry w = elim features_rows [
      | [] ↦ elim labels_rows [
        | [] ↦ some (record { result = ok tt; world = w; attempts = 0; slept = 0 })
        | _ ∷ _ ↦ write_loop (s.max_retries + 1) 0 0 w
      ]
      | _ ∷ _ ↦ write_loop (s.max_retries + 1) 0 0 w
    ]
