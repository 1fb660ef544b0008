-- ===== src/Db/Block.antt =====
-- The statements of one `with session_scope()` block: each may raise, and none after it runs.
use agentic_ml_engineering_l.Base.{
  ℕ, ◌+◌, ◌≡◌, ap, subst, Option, none, some, ◌⊎◌, inl, inr, Exc, Result, ok, raise,
}
use agentic_ml_engineering_l.Db.Session.{Tx, session_scope, session_scope-IsAtomic}

-- What the n-th statement that a block executes raises, if it does, and what its commit raises.
pub record Faults : Type 0 where
  pub statement : ℕ → Option Exc
  pub commit : Option Exc

-- A block over the rows D; the number is that of the statements executed so far.
abbrev pub Block : Type 0 → Type 0 → Type 0
Block D A = Tx D ℕ A

module _ {D A : Type 0} where
  unfoldable pub return : A → Block D A
  return a d n = (ok a, d, n)

  perform : Option Exc → (D → A × D) → D → ℕ → Result A × D × ℕ
  perform (some e) f d n = (raise e, d, n + 1)
  perform none f d n = let (a, d') = f d in (ok a, d', n + 1)

  -- session.execute(stmt)
  unfoldable pub execute : Faults → (D → A × D) → Block D A
  unfolding perform
  execute faults f d n = perform (faults.statement n) f d n

module _ {D A B : Type 0} where
  abbrev pub after : Result A × D × ℕ → (A → Block D B) → Result B × D × ℕ
  after (ok a, d, n) f = f a d n
  after (raise e, d, n) f = (raise e, d, n)

  infixl 5 ◌>>=◌
  abbrev pub ◌>>=◌ : Block D A → (A → Block D B) → Block D B
  ◌>>=◌ m f d n = after (m d n) f

-- What holds of the result and the rows, where the block has not raised.
module _ {D A : Type 0} where
  abbrev pub OnOk : (A → D → Type 0) → Result A × D × ℕ → Type 0
  OnOk P (ok a, d, n) = P a d
  OnOk P (raise e, d, n) = Unit

  pub return-OnOk : (P : A → D → Type 0) (a : A) (d : D) (n : ℕ) → P a d → OnOk P (return a d n)
  unfolding return
  return-OnOk P a d n h = h

  pub OnOk-map :
      (P Q : A → D → Type 0) (r : Result A × D × ℕ)
      → ((a : A) (d : D) → P a d → Q a d)
      → OnOk P r
      → OnOk Q r
  OnOk-map P Q (ok a, d, n) k h = k a d h
  OnOk-map P Q (raise e, d, n) k h = tt

  perform-OnOk :
      (P : A → D → Type 0) (fault : Option Exc) (f : D → A × D) (d : D) (n : ℕ)
      → P (f d).0 (f d).1
      → OnOk P (perform fault f d n)
  unfolding perform
  perform-OnOk P (some e) f d n h = tt
  perform-OnOk P none f d n h = h

  pub execute-OnOk :
      (P : A → D → Type 0) (faults : Faults) (f : D → A × D) (d : D) (n : ℕ)
      → P (f d).0 (f d).1
      → OnOk P (execute faults f d n)
  unfolding execute
  execute-OnOk P faults f d n h = perform-OnOk P (faults.statement n) f d n h

module _ {D A B : Type 0} where
  after-OnOk :
      (P : A → D → Type 0) (Q : B → D → Type 0) (r : Result A × D × ℕ) (f : A → Block D B)
      → OnOk P r
      → ((a : A) (d : D) (n : ℕ) → P a d → OnOk Q (f a d n))
      → OnOk Q (after r f)
  after-OnOk P Q (ok a, d, n) f h k = k a d n h
  after-OnOk P Q (raise e, d, n) f h k = tt

  pub >>=-OnOk :
      (P : A → D → Type 0) (Q : B → D → Type 0) (m : Block D A) (f : A → Block D B) (d : D) (n : ℕ)
      → OnOk P (m d n)
      → ((a : A) (d' : D) (n' : ℕ) → P a d' → OnOk Q (f a d' n'))
      → OnOk Q ((m >>= f) d n)
  >>=-OnOk P Q m f d n h k = after-OnOk P Q (m d n) f h k

module _ {D A : Type 0} where
  abbrev outcome : Result A × D × ℕ → Result A × D
  outcome r = (r.0, r.1)

  -- `with session_scope() as session: body`, as its caller sees it.
  unfoldable pub transact : Faults → Block D A → D → Result A × D
  unfolding session_scope
  transact faults body d = outcome (session_scope body faults.commit d 0)

  -- A transaction has its body's effect, or raises and has none.
  pub transact_cases :
      (P : A → D → Type 0) (faults : Faults) (body : Block D A) (d : D)
      → OnOk P (body d 0)
      → ((a : A) × (d' : D) × (transact faults body d ≡ (ok a, d')) × P a d')
        ⊎ ((e : Exc) × (transact faults body d ≡ (raise e, d)))
  unfolding transact
  transact_cases P faults body d h = elim (session_scope-IsAtomic body faults.commit d 0) [
    | inl (a, d', n, ran, calm, done) ↦ inl (a, d', ap outcome done, subst (OnOk P) ran h)
    | inr (e, n, done) ↦ inr (e, ap outcome done)
  ]
