-- ===== src/Db/Upsert.antt =====
-- `INSERT ... ON CONFLICT (key) DO NOTHING RETURNING key`, which the ingestor and the batch pipeline
-- use of PostgreSQL: an interface with the laws that PostgreSQL documents, and tables in memory.
use agentic_ml_engineering_l.Base.{
  ◌≤◌, String, ◌≡◌, refl, Bool, true, false, ◌||◌, Option, none, some, List, [], ◌∷◌, ◌==◌,
  if◌then◌else◌, is_some, or_else, length, In, ==_refl, arith, inl, inr, Bool-cases,
}
use agentic_ml_engineering_l.Base.Equality.{string_eq}

module _ {Row : Type 0} (key : Row → String) where
  -- The first row of a statement with the key.
  unfoldable pub first : String → List Row → Option Row
  first k [] = none
  first k (r ∷ rs) = if key r == k then some r else first k rs

  -- The keys of the rows that meet no conflict: with no row of the table, nor with an earlier row of
  -- the statement.
  unfoldable pub fresh : (String → Bool) → List Row → List String
  fresh seen [] = []
  fresh seen (r ∷ rs) = elim (seen (key r)) [
    | true ↦ fresh seen rs
    | false ↦ key r ∷ fresh (λ k. key r == k || seen k) rs
  ]

  pub length-fresh-le : (seen : String → Bool) (rs : List Row) → length (fresh seen rs) ≤ length rs
  unfolding fresh
  length-fresh-le seen [] = omega arith
  length-fresh-le seen (r ∷ rs) = elim (Bool-cases (seen (key r))) [
    | inl old ↦ rw (old, fresh) (omega (arith, length-fresh-le seen rs))
    | inr new ↦ rw (new, fresh) (omega (arith, length-fresh-le (λ k. key r == k || seen k) rs))
  ]

-- A table T of rows with a unique key.
pub record Upsert (T Row : Type 0) : Type 0 where
  pub key : Row → String
  pub lookup : T → String → Option Row
  -- the statement: the returned keys, and the table after it
  pub insert : List Row → T → List String × T
  -- A row stays; a key that was not there gets the first row of the statement that has it.
  pub lookup-insert :
      (rows : List Row) (t : T) (k : String)
      → lookup (insert rows t).1 k ≡ or_else (lookup t k) (first key k rows)
  -- RETURNING gives the keys of the rows that were inserted.
  pub insert_returning :
      (rows : List Row) (t : T) → (insert rows t).0 ≡ fresh key (λ k. is_some (lookup t k)) rows

module _ {T Row : Type 0} (db : Upsert T Row) where
  -- Every row of the list has a row with its key in the table.
  abbrev pub Holds : T → Row → Type 0
  Holds t r = is_some (db.lookup t (db.key r)) ≡ true

  pub first-In :
      (r : Row) (rows : List Row) → In r rows → is_some (first db.key (db.key r) rows) ≡ true
  unfolding first
  first-In r [] i = elim i [ ]
  first-In r (x ∷ rows) (inl e) = rw (← e, ==_refl (db.key r))
  first-In r (x ∷ rows) (inr i) = ground (arith, first-In r rows i)

  -- A row stays in the table.
  pub Holds-insert : (rows : List Row) (t : T) (r : Row) → Holds t r → Holds (db.insert rows t).1 r
  Holds-insert rows t r h = rw (db.lookup-insert rows t (db.key r)) (ground arith)

  -- Every row of the statement has a row with its key in the table after it.
  pub Holds-insert_self :
      (rows : List Row) (t : T) (r : Row) → In r rows → Holds (db.insert rows t).1 r
  Holds-insert_self rows t r i =
      rw (db.lookup-insert rows t (db.key r)) (ground (arith, first-In r rows i))

  pub length-insert-le : (rows : List Row) (t : T) → length (db.insert rows t).0 ≤ length rows
  length-insert-le rows t = rw (db.insert_returning rows t) (length-fresh-le db.key _ rows)

-- What a key has stays, when the same rows come again.
pub or_else_again {ℓ} : {A : Type ℓ} (x y : Option A) → or_else (or_else x y) y ≡ or_else x y
or_else_again none none = refl
or_else_again none (some r) = refl
or_else_again (some r) y = refl

-- A key that has a row keeps one, and a key of the new rows gets one.
pub or_else_left {ℓ} :
    {A : Type ℓ} (x y : Option A) → is_some x ≡ true → is_some (or_else x y) ≡ true
or_else_left none y h = cc
or_else_left (some a) y h = refl

pub or_else_right {ℓ} :
    {A : Type ℓ} (x y : Option A) → is_some y ≡ true → is_some (or_else x y) ≡ true
or_else_right none y h = h
or_else_right (some a) y h = refl
