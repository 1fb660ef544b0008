-- ===== src/Db/Table.antt =====
-- What the batch pipeline and the model registry use of a PostgreSQL table beside its inserts: a
-- SELECT whose WHERE is a test on one row. The order of the rows that it returns is not modelled.
use agentic_ml_engineering_l.Base.{String, Bool, true, ◌≡◌, some, List, In}
use agentic_ml_engineering_l.Db.Upsert.{Upsert}

pub record Table (T Row : Type 0) : Type 0 where
  pub upsert : Upsert T Row
  pub select : (Row → Bool) → T → List Row
  -- A row is found under its own key.
  pub lookup-key : (t : T) (k : String) (r : Row) → upsert.lookup t k ≡ some r → upsert.key r ≡ k
  -- SELECT returns stored rows that pass the test, and every one of them.
  pub select_sound :
      (test : Row → Bool) (t : T) (r : Row)
      → In r (select test t)
      → (upsert.lookup t (upsert.key r) ≡ some r) × (test r ≡ true)
  pub select_complete :
      (test : Row → Bool) (t : T) (r : Row)
      → upsert.lookup t (upsert.key r) ≡ some r
      → test r ≡ true
      → In r (select test t)
