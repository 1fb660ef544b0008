-- ===== src/Db/Memory.antt =====
-- A table in memory that meets the laws of `Upsert`: the rows in the order of insertion.
use mathlib.Core.Path.{fun_ext}
use agentic_ml_engineering_l.Base.{
  String, ◌≡◌, refl, ap, sym, ◌∙◌, true, false, ◌||◌, none, some, List, [], ◌∷◌, ◌++◌, ◌==◌,
  if◌then◌else◌, is_some, or_else, arith, inl, inr, Bool-cases,
}
use agentic_ml_engineering_l.Base.Equality.{string_eq}
use agentic_ml_engineering_l.Db.Upsert.{Upsert, first, fresh}

module _ {Row : Type 0} (key : Row → String) where
  unfoldable pub insert_rows : List Row → List Row → List String × List Row
  insert_rows [] t = ([], t)
  insert_rows (r ∷ rs) t = elim (is_some (first key (key r) t)) [
    | true ↦ insert_rows rs t
    | false ↦ let (ks, t') = insert_rows rs (t ++ r ∷ []) in (key r ∷ ks, t')
  ]

  first-append :
      (k : String) (t : List Row) (r : Row)
      → first key k (t ++ r ∷ []) ≡ or_else (first key k t) (if key r == k then some r else none)
  unfolding first
  first-append k [] r = refl
  first-append k (x ∷ t) r = ground (arith, first-append k t r)

  insert_rows_old :
      (r : Row) (rs t : List Row)
      → is_some (first key (key r) t) ≡ true
      → insert_rows (r ∷ rs) t ≡ insert_rows rs t
  unfolding insert_rows
  insert_rows_old r rs t h = rw (h, insert_rows)

  insert_rows_new :
      (r : Row) (rs t : List Row)
      → is_some (first key (key r) t) ≡ false
      → insert_rows (r ∷ rs) t
        ≡ (key r ∷ (insert_rows rs (t ++ r ∷ [])).0, (insert_rows rs (t ++ r ∷ [])).1)
  unfolding insert_rows
  insert_rows_new r rs t h = rw (h, insert_rows)

  pub lookup-insert_rows :
      (rs t : List Row) (k : String)
      → first key k (insert_rows rs t).1 ≡ or_else (first key k t) (first key k rs)
  unfolding first
  lookup-insert_rows [] t k = unfold insert_rows in ground arith
  lookup-insert_rows (r ∷ rs) t k = elim (Bool-cases (is_some (first key (key r) t))) [
    | inl old ↦
        rw (insert_rows_old r rs t old, lookup-insert_rows rs t k)
          (ground (arith, string_eq.same_iff (key r) k))
    | inr new ↦
        rw (insert_rows_new r rs t new, lookup-insert_rows rs (t ++ r ∷ []) k, first-append k t r)
          (ground (arith, string_eq.same_iff (key r) k))
  ]

  seen-append :
      (t : List Row) (r : Row) (k : String)
      → is_some (first key k (t ++ r ∷ [])) ≡ (key r == k || is_some (first key k t))
  seen-append t r k = rw (first-append k t r) (ground arith)

  pub insert_rows_returning :
      (rs t : List Row) → (insert_rows rs t).0 ≡ fresh key (λ k. is_some (first key k t)) rs
  insert_rows_returning [] t = unfold insert_rows fresh in refl
  insert_rows_returning (r ∷ rs) t = elim (Bool-cases (is_some (first key (key r) t))) [
    | inl old ↦
        rw (insert_rows_old r rs t old)
          (insert_rows_returning rs t ∙ sym (unfold fresh in rw (old, fresh)))
    | inr new ↦ rw (insert_rows_new r rs t new) (
        ap (◌∷◌ (key r)) (
          insert_rows_returning rs (t ++ r ∷ [])
          ∙ ap (λ s. fresh key s rs) (fun_ext (seen-append t r)))
        ∙ sym (unfold fresh in rw (new, fresh)))
  ]

-- The table in memory.
unfoldable pub in_memory : {Row : Type 0} → (Row → String) → Upsert (List Row) Row
unfolding insert_rows first
in_memory key = record {
  key = key;
  lookup = λ t k. first key k t;
  insert = insert_rows key;
  lookup-insert = lookup-insert_rows key;
  insert_returning = insert_rows_returning key;
}
