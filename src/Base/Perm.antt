-- ===== src/Base/Perm.antt =====
-- Lists in another order.
use Prim.Native.Nat.{suc}
use mathlib.Core.Path.{◌≡◌, refl, ap, ◌∙◌}
use mathlib.Core.List.{List, [], ◌∷◌, ◌++◌, Permᴰ}
use native.Mathlib.Omega.{arith}
use agentic_ml_engineering_l.Base.Lists.{length}

module _ {ℓ} {A : Type ℓ} where
  pub length-Perm : {a b : List A} → Permᴰ a b → length a ≡ length b
  length-Perm Permᴰ.nil = refl
  length-Perm (Permᴰ.cons _ p) = ap (λ n. suc n) (length-Perm p)
  length-Perm (Permᴰ.swap _ _) = refl
  length-Perm (Permᴰ.trans p q) = length-Perm p ∙ length-Perm q

  pub Perm-refl : (xs : List A) → Permᴰ xs xs
  Perm-refl [] = Permᴰ.nil
  Perm-refl (x ∷ xs) = Permᴰ.cons refl (Perm-refl xs)

  pub Perm-nonempty : (xs ys : List A) → Permᴰ xs ys → ¬ (xs ≡ []) → ¬ (ys ≡ [])
  Perm-nonempty [] ys p h q = h refl
  Perm-nonempty (x ∷ xs) [] p h q = absurd (omega (arith, length-Perm p))
  Perm-nonempty (x ∷ xs) (y ∷ ys) p h q = cc

  -- One list in another order keeps its place before a third.
  pub Perm-append : {a b : List A} (c : List A) → Permᴰ a b → Permᴰ (a ++ c) (b ++ c)
  Perm-append [] Permᴰ.nil = Permᴰ.nil
  Perm-append (x ∷ c) Permᴰ.nil = Permᴰ.cons refl (Perm-append c Permᴰ.nil)
  Perm-append c (Permᴰ.cons e p) = Permᴰ.cons e (Perm-append c p)
  Perm-append c (Permᴰ.swap e f) = Permᴰ.swap e f
  Perm-append c (Permᴰ.trans p q) = Permᴰ.trans (Perm-append c p) (Perm-append c q)

  pub Perm-swap : (x y : A) (xs : List A) → Permᴰ (x ∷ y ∷ xs) (y ∷ x ∷ xs)
  Perm-swap x y xs = Permᴰ.swap refl refl

  -- An element at the end, and at any other place.
  pub Perm-end : (x : A) (xs : List A) → Permᴰ (xs ++ x ∷ []) (x ∷ xs)
  Perm-end x [] = Permᴰ.cons refl Permᴰ.nil
  Perm-end x (y ∷ xs) = Permᴰ.trans (Permᴰ.cons refl (Perm-end x xs)) (Perm-swap y x xs)

  pub Perm-middle : (x : A) (xs ys : List A) → Permᴰ (x ∷ xs ++ ys) (xs ++ x ∷ ys)
  Perm-middle x [] ys = Perm-refl (x ∷ ys)
  Perm-middle x (y ∷ xs) ys =
      Permᴰ.trans (Perm-swap x y (xs ++ ys)) (Permᴰ.cons refl (Perm-middle x xs ys))

  pub Perm-prepend : {a b : List A} (c : List A) → Permᴰ a b → Permᴰ (c ++ a) (c ++ b)
  Perm-prepend [] p = p
  Perm-prepend (x ∷ c) p = Permᴰ.cons refl (Perm-prepend c p)

  -- One more element behind a list, and in the second part of its order.
  pub Perm-snoc :
      (a b c : List A) {d : List A} (x : A)
      → Permᴰ a (b ++ c)
      → Permᴰ (x ∷ c) d
      → Permᴰ (a ++ x ∷ []) (b ++ d)
  Perm-snoc a b c x p q =
      Permᴰ.trans (Perm-end x a)
        (Permᴰ.trans (Permᴰ.cons refl p) (Permᴰ.trans (Perm-middle x b c) (Perm-prepend b q)))
