-- ===== src/Tests/Sorted.antt =====
-- A sort that meets the interface of ORDER BY ... DESC.
use mathlib.Core.List.{Permᴰ}
use agentic_ml_engineering_l.Base.{
  ◌≤◌, List, [], ◌∷◌, All, All-map, ltb, refl, Bool-cases, inl, inr, arith, if◌then◌else◌,
}
use agentic_ml_engineering_l.Base.Perm.{Perm-refl}
use agentic_ml_engineering_l.Training.Dataset.{Entity, IsDescending, Descending}

unfoldable pub insert : Entity → List Entity → List Entity
insert e [] = e ∷ []
insert e (f ∷ fs) =
    let rest = insert e fs in
    if ltb e.event_timestamp f.event_timestamp then f ∷ rest else e ∷ f ∷ fs

unfoldable pub sorted : List Entity → List Entity
unfolding insert
sorted [] = []
sorted (e ∷ es) = insert e (sorted es)

insert-Perm : (e : Entity) (es : List Entity) → Permᴰ (e ∷ es) (insert e es)
unfolding insert
insert-Perm e [] = Perm-refl (e ∷ [])
insert-Perm e (f ∷ fs) = elim (Bool-cases (ltb e.event_timestamp f.event_timestamp)) [
  | inl b ↦ rw b (Permᴰ.trans (Permᴰ.swap refl refl) (Permᴰ.cons refl (insert-Perm e fs)))
  | inr b ↦ rw b (Perm-refl (e ∷ f ∷ fs))
]

pub sorted-Perm : (es : List Entity) → Permᴰ es (sorted es)
unfolding sorted
sorted-Perm [] = Permᴰ.nil
sorted-Perm (e ∷ es) = Permᴰ.trans (Permᴰ.cons refl (sorted-Perm es)) (insert-Perm e (sorted es))

insert-All :
    (P : Entity → Type 0) (e : Entity) (es : List Entity) → P e → All P es → All P (insert e es)
unfolding insert
insert-All P e [] p h = (p, tt)
insert-All P e (f ∷ fs) p h = elim (Bool-cases (ltb e.event_timestamp f.event_timestamp)) [
  | inl b ↦ rw b (h.0, insert-All P e fs p h.1)
  | inr b ↦ rw b (p, h)
]

insert-IsDescending : (e : Entity) (es : List Entity) → IsDescending es → IsDescending (insert e es)
unfolding insert
insert-IsDescending e [] h = (tt, tt)
insert-IsDescending e (f ∷ fs) h = elim (Bool-cases (ltb e.event_timestamp f.event_timestamp)) [
  | inl b ↦ rw b (insert-All _ e fs (ground arith) h.0, insert-IsDescending e fs h.1)
  | inr b ↦
      let le : f.event_timestamp ≤ e.event_timestamp = ground arith in
      rw b ((le, All-map _ _ fs (λ g q. omega arith) h.0), h)
]

pub sorted-IsDescending : (es : List Entity) → IsDescending (sorted es)
unfolding sorted
sorted-IsDescending [] = tt
sorted-IsDescending (e ∷ es) = insert-IsDescending e (sorted es) (sorted-IsDescending es)

abbrev pub by_time : Descending
by_time = record {
  order = sorted;
  order-Perm = sorted-Perm;
  order-IsDescending = sorted-IsDescending;
}
