-- ===== src/Base/Equality.antt =====
-- Python's `==` on the values that the program compares: numbers, texts, and pairs of them.
use Prim.Native.Nat.{ℕ, compare, Ordering}
use Prim.Native.String.{String}
use mathlib.Core.Path.{◌≡◌, refl, ap₂, ap}
use mathlib.Core.Logic.{◌↔◌, ◌≢◌}
use mathlib.Core.Bool.{Bool, true, false, ◌&&◌}
use native.Mathlib.Omega.{arith}
use text.Mathlib.Text.{◌==◌ as str_eq}
use text.Mathlib.TextEquality.{eq_iff}

pub record Eq {ℓ} (A : Type ℓ) : Type ℓ where
  -- Whether Python's `==` is true.
  pub same : A → A → Bool
  pub same_iff : (a b : A) → (same a b ≡ true) ↔ (a ≡ b)

instance abbrev pub string_eq : Eq String
string_eq = record { same = str_eq; same_iff = eq_iff }

infix 50 ◌==◌
abbrev pub ◌==◌ {ℓ} : {A : Type ℓ} ⦃e : Eq A⦄ → A → A → Bool
◌==◌ ⦃e⦄ = e.same

abbrev pub nat_same : ℕ → ℕ → Bool
nat_same a b = elim (compare a b) [ Ordering.eq ↦ true | _ ↦ false ]

pub nat_same_iff : (a b : ℕ) → (nat_same a b ≡ true) ↔ (a ≡ b)
nat_same_iff a b = ground arith

instance abbrev pub nat_eq : Eq ℕ
nat_eq = record { same = nat_same; same_iff = nat_same_iff }

module _ {ℓ} {A B : Type ℓ} ⦃a : Eq A⦄ ⦃b : Eq B⦄ where
  abbrev pub pair_same : A × B → A × B → Bool
  pair_same x y = a.same x.0 y.0 && b.same x.1 y.1

  pub pair_same_sound : (x y : A × B) → pair_same x y ≡ true → x ≡ y
  pair_same_sound (x, y) (u, v) h =
      ap₂ (λ s t. (s, t)) ((a.same_iff x u).0 (ground arith)) ((b.same_iff y v).0 (ground arith))

  pub pair_same_complete : (x y : A × B) → x ≡ y → pair_same x y ≡ true
  pair_same_complete (x, y) (u, v) e =
      let p = (a.same_iff x u).1 (ap (λ (t : A × B). t.0) e) in
      let q = (b.same_iff y v).1 (ap (λ (t : A × B). t.1) e) in ground arith

  instance abbrev pub pair_eq : Eq (A × B)
  pair_eq = record {
    same = pair_same;
    same_iff = λ x y. (pair_same_sound x y, pair_same_complete x y);
  }

module _ {ℓ} {A : Type ℓ} ⦃e : Eq A⦄ where
  pub ==_sound : (a b : A) → (a == b) ≡ true → a ≡ b
  ==_sound a b h = (e.same_iff a b).0 h

  pub ==_refl : (a : A) → (a == a) ≡ true
  ==_refl a = (e.same_iff a a).1 refl

  pub ==_ne : (a b : A) → (a == b) ≡ false → a ≢ b
  ==_ne a b h p = let t = (e.same_iff a b).1 p in cc
