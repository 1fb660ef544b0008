-- ===== src/Pipeline/Validation/Partition.antt =====
-- validation.py, `validate`: its report adds up, and no row leaves without a failure case.
use agentic_ml_engineering_l.Base.{
  ℕ, suc, ◌+◌, ◌≤◌, ◌<◌, String, true, false, Option, none, some, List, [], ◌∷◌, length, In, ◌≡◌,
  refl, subst, sym, ap, ◌==◌, ==_refl, get_elem?, ◌⊎◌, inl, inr, if◌then◌else◌, Bool-cases, arith,
}
use native.Mathlib.Nat.{add-zero, zero-add}
use agentic_ml_engineering_l.Base.Dict.{Dict, get, put}
use agentic_ml_engineering_l.Base.Equality.{string_eq, nat_eq, pair_eq}
use agentic_ml_engineering_l.Pipeline.Validation.{
  FailureCase, Pandera, Schema, ValidationReport, mem, insert_index, invalid_index, drop_index,
  validate, reported, one_more, count_failures,
}

-- The set without one number.
remove : ℕ → List ℕ → List ℕ
remove i [] = []
remove i (j ∷ s) = if j == i then s else j ∷ remove i s

-- Every number stands in the set once.
abbrev Once : List ℕ → Type 0
Once [] = Unit
Once (j ∷ s) = (mem j s ≡ false) × Once s

mem-remove : (i j : ℕ) (s : List ℕ) → (j == i) ≡ false → mem i (remove j s) ≡ mem i s
unfolding remove
mem-remove i j [] h = refl
mem-remove i j (k ∷ s) h = ground (arith, mem-remove i j s h)

mem-remove_self : (j : ℕ) (s : List ℕ) → Once s → mem j (remove j s) ≡ false
unfolding remove
mem-remove_self j [] o = refl
mem-remove_self j (k ∷ s) o = ground (arith, mem-remove_self j s o.1, nat_eq.same_iff k j)

Once-remove : (j : ℕ) (s : List ℕ) → Once s → Once (remove j s)
unfolding remove
Once-remove j [] o = tt
Once-remove j (k ∷ s) o = elim (Bool-cases (k == j)) [
  | inl e ↦ rw e o.1
  | inr n ↦
      rw n (rw (mem-remove k j s (ground (arith, nat_eq.same_iff k j))) o.0, Once-remove j s o.1)
]

length-remove : (j : ℕ) (s : List ℕ) → length s ≡ length (remove j s) + (if mem j s then 1 else 0)
unfolding remove
length-remove j [] = omega arith
length-remove j (k ∷ s) = ground (arith, length-remove j s)

-- The set's numbers lie in a range.
abbrev Inside : ℕ → ℕ → List ℕ → Type 0
Inside lo hi s = (p : ℕ) → mem p s ≡ true → (lo ≤ p) × (p < hi)

Inside-remove :
    (lo hi : ℕ) (s : List ℕ) → Once s → Inside lo hi s → Inside (suc lo) hi (remove lo s)
Inside-remove lo hi s o h p m = elim (Bool-cases (lo == p)) [
  | inl e ↦ absurd (
      let f = mem-remove_self lo s o in
      let q = (nat_eq.same_iff lo p).0 e in ground (arith, ap (λ (i : ℕ). mem i (remove lo s)) q))
  | inr n ↦ let b = h p (rw (mem-remove p lo s n) at m) in ground (arith, nat_eq.same_iff lo p)
]

module _ {Row : Type 0} where
  drop_index-remove :
      (i p : ℕ) (s : List ℕ) (df : List Row)
      → i < p
      → drop_index (remove i s) p df ≡ drop_index s p df
  unfolding drop_index
  drop_index-remove i p s [] h = refl
  drop_index-remove i p s (r ∷ df) h =
      rw (mem-remove p i s (ground (arith)), drop_index-remove i (suc p) s df (omega arith))

  length-drop_index :
      (s : List ℕ) (i : ℕ) (df : List Row)
      → Once s
      → Inside i (i + length df) s
      → length (drop_index s i df) + length s ≡ length df
  unfolding drop_index
  length-drop_index [] i [] o h = omega arith
  length-drop_index (j ∷ s) i [] o h = absurd (let b = h j (rw (==_refl j)) in omega arith)
  length-drop_index s i (r ∷ df) o h =
      let ih =
        length-drop_index (remove i s) (suc i) df (Once-remove i s o)
          (λ p m. let b = Inside-remove i (i + length (r ∷ df)) s o h p m in (b.0, omega arith)) in
      let e = drop_index-remove i (suc i) s df (omega arith) in
      ground (arith, length-remove i s, ap (λ (l : List Row). length l) e)

insert_index-Once : (i : Option ℕ) (s : List ℕ) → Once s → Once (insert_index i s)
unfolding insert_index
insert_index-Once none s o = o
insert_index-Once (some i) s o = elim (Bool-cases (mem i s)) [
  | inl e ↦ rw e o
  | inr n ↦ rw n (n, o)
]

invalid_index-Once : (fs : List FailureCase) → Once (invalid_index fs)
unfolding invalid_index
invalid_index-Once [] = tt
invalid_index-Once (f ∷ fs) = insert_index-Once f.index (invalid_index fs) (invalid_index-Once fs)

mem-insert_index :
    (p : ℕ) (i : Option ℕ) (s : List ℕ)
    → mem p (insert_index i s) ≡ true
    → (i ≡ some p) ⊎ (mem p s ≡ true)
unfolding insert_index
mem-insert_index p none s h = inr h
mem-insert_index p (some i) s h = ground (arith, nat_eq.same_iff i p)

-- A number in the set is the index of a failure case.
pub mem-invalid_index :
    (p : ℕ) (fs : List FailureCase)
    → mem p (invalid_index fs) ≡ true
    → (f : FailureCase) × In f fs × (f.index ≡ some p)
unfolding invalid_index
mem-invalid_index p [] h = cc
mem-invalid_index p (f ∷ fs) h = elim (mem-insert_index p f.index (invalid_index fs) h) [
  | inl e ↦ (f, inl refl, e)
  | inr m ↦ let (g, i, e) = mem-invalid_index p fs m in (g, inr i, e)
]

-- The failure cases that the groups count.
abbrev pub counted : Dict (String × String) ℕ → ℕ
counted [] = 0
counted ((k, n) ∷ d) = n + counted d

counted-put :
    (k : String × String) (d : Dict (String × String) ℕ)
    → counted (put k (one_more (get k d)) d) ≡ counted d + 1
unfolding get put
counted-put k [] = omega arith
counted-put k ((j, n) ∷ d) = ground (arith, counted-put k d)

counted-count_failures :
    (fs : List FailureCase) (d : Dict (String × String) ℕ)
    → counted (count_failures fs d) ≡ counted d + length fs
unfolding count_failures
counted-count_failures [] d = omega arith
counted-count_failures (f ∷ fs) d =
    let next = put (f.column, f.check) (one_more (get (f.column, f.check) d)) d in
    omega (arith, counted-count_failures fs next, counted-put (f.column, f.check) d)

module _ {Row : Type 0} (pandera : Pandera Row) (df : List Row) (schema : Schema) where
  -- A failure case names the row.
  abbrev pub Blamed : Row → Type 0
  Blamed r =
      (f : FailureCase) × (i : ℕ) × In f (pandera.failure_cases schema df)
      × (f.index ≡ some i)
      × (get_elem? df i ≡ some r)

  pub record Partition (result : List Row × ValidationReport) : Type 0 where
    pub total : result.1.total_rows ≡ length df
    pub valid : result.1.valid_rows ≡ length result.0
    pub sum : result.1.valid_rows + result.1.invalid_rows ≡ result.1.total_rows
    pub cases : counted result.1.failures ≡ length (pandera.failure_cases schema df)
    pub kept : (r : Row) → In r df → In r result.0 ⊎ Blamed r
    pub sound : (r : Row) → In r result.0 → In r df

shift : (i p : ℕ) → suc i + p ≡ i + suc p
shift i p = omega arith

module _ {Row : Type 0} where
  In-drop_index :
      (s : List ℕ) (i : ℕ) (df : List Row) (r : Row)
      → In r df
      → In r (drop_index s i df) ⊎ ((p : ℕ) × (mem (i + p) s ≡ true) × (get_elem? df p ≡ some r))
  unfolding drop_index
  In-drop_index s i [] r h = elim h [ ]
  In-drop_index s i (x ∷ df) r (inl e) = elim (Bool-cases (mem i s)) [
    | inl m ↦ inr (0, rw (add-zero i) m, ap (λ a. some a) (sym e))
    | inr n ↦ inl (rw n (inl e))
  ]
  In-drop_index s i (x ∷ df) r (inr h) = elim (In-drop_index s (suc i) df r h) [
    | inl k ↦ inl (elim (Bool-cases (mem i s)) [ inl m ↦ rw m k | inr n ↦ rw n (inr k) ])
    | inr (p, m, e) ↦ inr (suc p, subst (λ (n : ℕ). mem n s ≡ true) (shift i p) m, e)
  ]

  drop_index-In :
      (s : List ℕ) (i : ℕ) (df : List Row) (r : Row) → In r (drop_index s i df) → In r df
  unfolding drop_index
  drop_index-In s i [] r h = h
  drop_index-In s i (x ∷ df) r h = elim (Bool-cases (mem i s)) [
    | inl m ↦ inr (drop_index-In s (suc i) df r (rw m at h))
    | inr n ↦
        let h' : (r ≡ x) ⊎ In r (drop_index s (suc i) df) = rw n at h in
        elim h' [ inl e ↦ inl e | inr k ↦ inr (drop_index-In s (suc i) df r k) ]
  ]

module _ {Row : Type 0} (pandera : Pandera Row) (schema : Schema) where
  module _ (df : List Row) where
    module _ (fs : List FailureCase) (e : pandera.failure_cases schema df ≡ fs) where
      index-Inside : Inside 0 (0 + length df) (invalid_index fs)
      index-Inside p m =
          let (f, i, q) = mem-invalid_index p fs m in
          (omega arith, omega (arith, pandera.index-lt-length schema df f p (rw e i) q))

      kept_or_Blamed :
          (r : Row)
          → In r df
          → In r (drop_index (invalid_index fs) 0 df) ⊎ Blamed pandera df schema r
      kept_or_Blamed r h = elim (In-drop_index (invalid_index fs) 0 df r h) [
        | inl k ↦ inl k
        | inr (p, m, q) ↦
            let (f, i, w) =
              mem-invalid_index p fs
                (subst (λ (n : ℕ). mem n (invalid_index fs) ≡ true) (zero-add p) m) in
            inr (f, p, rw e i, w, q)
      ]

    reported-Partition :
        (fs : List FailureCase)
        → pandera.failure_cases schema df ≡ fs
        → Partition pandera df schema (reported df fs)
    unfolding reported
    reported-Partition [] e = record {
      total = refl;
      valid = refl;
      sum = omega arith;
      cases = ap length (sym e);
      kept = λ r h. inl h;
      sound = λ r h. h;
    }
    reported-Partition (f ∷ fs) e = record {
      total = refl;
      valid = refl;
      sum =
          length-drop_index (invalid_index (f ∷ fs)) 0 df (invalid_index-Once (f ∷ fs))
            (index-Inside (f ∷ fs) e);
      cases = omega (
        arith,
        counted-count_failures (f ∷ fs) [],
        ap (λ (l : List FailureCase). length l) (sym e),
      );
      kept = kept_or_Blamed (f ∷ fs) e;
      sound = drop_index-In (invalid_index (f ∷ fs)) 0 df;
    }

  pub validate-Partition :
      (r : Row) (df : List Row)
      → Partition pandera (r ∷ df) schema (validate pandera (r ∷ df) schema)
  unfolding validate
  validate-Partition r df = reported-Partition (r ∷ df) (pandera.failure_cases schema (r ∷ df)) refl
