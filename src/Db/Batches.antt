-- ===== src/Db/Batches.antt =====
-- The loop of the batch pipeline's upserts: `INSERT ... ON CONFLICT DO NOTHING RETURNING`, one
-- statement for each chunk of rows, with the count of what they returned.
use agentic_ml_engineering_l.Base.{
  ℕ, ◌+◌, ◌≤◌, String, Option, none, some, List, [], ◌∷◌, ◌++◌, length, ◌≡◌, refl, sym, subst, ◌∙◌,
  or_else, arith,
}
use agentic_ml_engineering_l.Base.Equality.{string_eq}
use agentic_ml_engineering_l.Db.Upsert.{Upsert, first}
use agentic_ml_engineering_l.Db.Block.{
  Block, Faults, return, execute, ◌>>=◌, OnOk, execute-OnOk, >>=-OnOk, OnOk-map,
}
use agentic_ml_engineering_l.Pipeline.Chunks.{chunked, concat, chunked_lem}

-- A table of the database.
pub record Part (D T : Type 0) : Type 0 where
  pub read : D → T
  pub write : T → D → D
  pub read-write : (t : T) (d : D) → read (write t d) ≡ t
  pub write-write : (t u : T) (d : D) → write t (write u d) ≡ write t d
  pub write-read : (d : D) → write (read d) d ≡ d

module _ {D T Row : Type 0} (db : Upsert T Row) (part : Part D T) (faults : Faults) where
  insert_statement : List Row → D → ℕ × D
  insert_statement batch d =
      let (returned, t) = db.insert batch (part.read d) in (length returned, part.write t d)

  -- `total` is total_inserted so far.
  unfoldable pub insert_batches : List (List Row) → ℕ → Block D ℕ
  unfolding insert_statement execute return
  insert_batches [] total = return total
  insert_batches (batch ∷ batches) total =
      execute faults (insert_statement batch) >>= λ n. insert_batches batches (total + n)

module _ {D T Row : Type 0} (db : Upsert T Row) (part : Part D T) where
  -- Every key of the rows has a row; what was stored stays; the other tables stay.
  pub record Inserted (d : D) (rows : List Row) (d' : D) : Type 0 where
    pub table : T
    pub only : d' ≡ part.write table d
    pub lookup :
        (k : String) → db.lookup table k ≡ or_else (db.lookup (part.read d) k) (first db.key k rows)

first-append :
    {Row : Type 0} (key : Row → String) (k : String) (xs ys : List Row)
    → first key k (xs ++ ys) ≡ or_else (first key k xs) (first key k ys)
unfolding first
first-append key k [] ys = refl
first-append key k (x ∷ xs) ys = ground (arith, first-append key k xs ys)

or_else_assoc {ℓ} :
    {A : Type ℓ} (x y z : Option A) → or_else (or_else x y) z ≡ or_else x (or_else y z)
or_else_assoc none y z = refl
or_else_assoc (some a) y z = refl

or_else-none {ℓ} : {A : Type ℓ} (x : Option A) → x ≡ or_else x none
or_else-none none = refl
or_else-none (some a) = refl

module _ {D T Row : Type 0} (db : Upsert T Row) (part : Part D T) where
  pub Inserted-nil : (d : D) → Inserted db part d [] d
  Inserted-nil d = record {
    table = part.read d;
    only = sym (part.write-read d);
    lookup = λ k. unfold first in or_else-none (db.lookup (part.read d) k);
  }

  Inserted-append :
      (batch rows : List Row) (d d' : D)
      → Inserted db part (part.write (db.insert batch (part.read d)).1 d) rows d'
      → Inserted db part d (batch ++ rows) d'
  Inserted-append batch rows d d' i = record {
    table = i.table;
    only = i.only ∙ part.write-write i.table _ d;
    lookup = λ k.
        rw
          (
            i.lookup k,
            part.read-write (db.insert batch (part.read d)).1 d,
            db.lookup-insert batch (part.read d) k,
            first-append db.key k batch rows,
          )
          (or_else_assoc (db.lookup (part.read d) k) _ _);
  }

  Inserted-after :
      (batch rows : List Row) (d e d' : D)
      → e ≡ part.write (db.insert batch (part.read d)).1 d
      → Inserted db part e rows d'
      → Inserted db part d (batch ++ rows) d'
  Inserted-after batch rows d e d' q i =
      Inserted-append batch rows d d' (subst (λ s. Inserted db part s rows d') q i)

module _ {D T Row : Type 0} (db : Upsert T Row) (part : Part D T) (faults : Faults) where
  insert_batches-Inserted :
      (batches : List (List Row)) (total : ℕ) (d : D) (n : ℕ)
      → OnOk
          (λ _ d'. Inserted db part d (concat batches) d')
          (insert_batches db part faults batches total d n)
  unfolding insert_batches
  insert_batches-Inserted [] total d n = Inserted-nil db part d
  insert_batches-Inserted (batch ∷ batches) total d n =
      let inserted = part.write (db.insert batch (part.read d)).1 d in
      >>=-OnOk (λ _ e. e ≡ inserted) _ (execute faults (insert_statement db part faults batch))
        (λ m. insert_batches db part faults batches (total + m)) d n
        (execute-OnOk (λ _ e. e ≡ inserted) faults (insert_statement db part faults batch) d n refl)
        (λ m e n' q.
          OnOk-map _ _ (insert_batches db part faults batches (total + m) e n')
            (λ _ d'. Inserted-after db part batch (concat batches) d e d' q)
            (insert_batches-Inserted batches (total + m) e n'))

  -- The upsert of the rows in chunks of a positive size, where it does not raise.
  pub insert_chunked-Inserted :
      (rows : List Row) (size : ℕ) (d : D) (n : ℕ)
      → 1 ≤ size
      → OnOk
          (λ _ d'. Inserted db part d rows d')
          (insert_batches db part faults (chunked rows size) 0 d n)
  insert_chunked-Inserted rows size d n h =
      subst
        (λ l.
          OnOk (λ _ d'. Inserted db part d l d')
            (insert_batches db part faults (chunked rows size) 0 d n))
        (chunked_lem rows size h).0 (insert_batches-Inserted (chunked rows size) 0 d n)
