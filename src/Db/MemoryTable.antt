-- ===== src/Db/MemoryTable.antt =====
-- The table in memory with its SELECT: the first row of each key.
use agentic_ml_engineering_l.Base.{
  String, Bool, true, false, ◌≡◌, refl, some, List, [], ◌∷◌, ◌==◌, ==_refl, ==_sound, In,
  if◌then◌else◌, arith, inl, inr, Bool-cases,
}
use agentic_ml_engineering_l.Base.Equality.{string_eq}
use agentic_ml_engineering_l.Db.Upsert.{first}
use agentic_ml_engineering_l.Db.Memory.{in_memory}
use agentic_ml_engineering_l.Db.Table.{Table}

module _ {Row : Type 0} (keep : Row → Bool) where
  unfoldable pub filter : List Row → List Row
  filter [] = []
  filter (r ∷ t) = let rest = filter t in if keep r then r ∷ rest else rest

  pub filter_sound : (r : Row) (t : List Row) → In r (filter t) → In r t × (keep r ≡ true)
  unfolding filter
  filter_sound r [] i = elim i [ ]
  filter_sound r (x ∷ t) i = elim (Bool-cases (keep x)) [
    | inl e ↦ elim (rw e at i) [
      | inl p ↦ (inl p, rw p e)
      | inr j ↦ let (k, h) = filter_sound r t j in (inr k, h)
    ]
    | inr e ↦ let (k, h) = filter_sound r t (rw e at i) in (inr k, h)
  ]

  pub filter_complete : (r : Row) (t : List Row) → In r t → keep r ≡ true → In r (filter t)
  unfolding filter
  filter_complete r [] i h = elim i [ ]
  filter_complete r (x ∷ t) (inl p) h = rw (← p, h) (inl refl)
  filter_complete r (x ∷ t) (inr i) h = elim (Bool-cases (keep x)) [
    | inl e ↦ rw e (inr (filter_complete r t i h))
    | inr e ↦ rw e (filter_complete r t i h)
  ]

module _ {Row : Type 0} (key : Row → String) where
  abbrev pub differs : String → Row → Bool
  differs k r = if key r == k then false else true

  unfoldable pub distinct : List Row → List Row
  unfolding filter
  distinct [] = []
  distinct (r ∷ t) = r ∷ filter (differs (key r)) (distinct t)

  pub first-key : (t : List Row) (k : String) (r : Row) → first key k t ≡ some r → key r ≡ k
  unfolding first
  first-key [] k r h = absurd cc
  first-key (x ∷ t) k r h = elim (Bool-cases (key x == k)) [
    | inl e ↦ let p = rw e at h in let q = ==_sound (key x) k e in ground arith
    | inr e ↦ first-key t k r (rw e at h)
  ]

  pub distinct_sound : (r : Row) (t : List Row) → In r (distinct t) → first key (key r) t ≡ some r
  unfolding distinct first
  distinct_sound r [] i = elim i [ ]
  distinct_sound r (x ∷ t) (inl p) = rw (p, ==_refl (key x)) refl
  distinct_sound r (x ∷ t) (inr i) =
      let (j, d) = filter_sound (differs (key x)) r (distinct t) i in
      let h = distinct_sound r t j in
      ground (arith, string_eq.same_iff (key x) (key r), string_eq.same_iff (key r) (key x))

  pub distinct_complete :
      (r : Row) (t : List Row) → first key (key r) t ≡ some r → In r (distinct t)
  unfolding distinct first
  distinct_complete r [] h = absurd cc
  distinct_complete r (x ∷ t) h = elim (Bool-cases (key x == key r)) [
    | inl e ↦ inl (let p = rw e at h in cc)
    | inr e ↦ inr (
        filter_complete (differs (key x)) r (distinct t) (distinct_complete r t (rw e at h))
          (ground (arith, string_eq.same_iff (key x) (key r), string_eq.same_iff (key r) (key x))))
  ]

-- The table in memory.
unfoldable pub table_in_memory : {Row : Type 0} → (Row → String) → Table (List Row) Row
unfolding in_memory distinct filter
table_in_memory key = record {
  upsert = in_memory key;
  select = λ test t. filter test (distinct key t);
  lookup-key = λ t k r h. first-key key t k r h;
  select_sound = λ test t r i.
      let (j, h) = filter_sound test r (distinct key t) i in (distinct_sound key r t j, h);
  select_complete =
      λ test t r h k. filter_complete test r (distinct key t) (distinct_complete key r t h) k;
}
