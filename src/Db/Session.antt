-- ===== src/Db/Session.antt =====
-- libs/amel_db/src/amel_db/session.py: one transaction per `with session_scope()` block.
use agentic_ml_engineering_l.Base.{
  ◌≡◌, refl, Option, none, some, ◌⊎◌, inl, inr, Exc, Result, ok, raise,
}

-- The body of a block. D: the rows of the database, which a rollback restores; M: what a rollback
-- does not touch, such as counters.
abbrev pub Tx : Type 0 → Type 0 → Type 0 → Type 0
Tx D M A = D → M → Result A × D × M

module _ {D M A : Type 0} where
  -- `commit_error` is what `session.commit()` raises, if it does.
  unfoldable pub close : D → Option Exc → Result A × D × M → Result A × D × M
  close before commit_error (raise e, d, m) = (raise e, before, m)
  close before none (ok a, d, m) = (ok a, d, m)
  close before (some e) (ok a, d, m) = (raise e, before, m)

  unfoldable pub session_scope : Tx D M A → Option Exc → Tx D M A
  unfolding close
  session_scope body commit_error d m = close d commit_error (body d m)

  close-IsAtomic :
      (d : D) (commit_error : Option Exc) (r : Result A × D × M)
      → ((a : A) × (d' : D) × (m' : M) × (r ≡ (ok a, d', m'))
          × (commit_error ≡ none)
          × (close d commit_error r ≡ (ok a, d', m')))
        ⊎ ((e : Exc) × (m' : M) × (close d commit_error r ≡ (raise e, d, m')))
  unfolding close
  close-IsAtomic d c (raise e, d', m') = inr (e, m', refl)
  close-IsAtomic d none (ok a, d', m') = inl (a, d', m', refl, refl, refl)
  close-IsAtomic d (some e) (ok a, d', m') = inr (e, m', refl)

  -- A block either returns what its body returned, with the body's rows committed, or raises and
  -- leaves the rows as they were.
  pub session_scope-IsAtomic :
      (body : Tx D M A) (commit_error : Option Exc) (d : D) (m : M)
      → ((a : A) × (d' : D) × (m' : M) × (body d m ≡ (ok a, d', m'))
          × (commit_error ≡ none)
          × (session_scope body commit_error d m ≡ (ok a, d', m')))
        ⊎ ((e : Exc) × (m' : M) × (session_scope body commit_error d m ≡ (raise e, d, m')))
  unfolding session_scope
  session_scope-IsAtomic body c d m = close-IsAtomic d c (body d m)
