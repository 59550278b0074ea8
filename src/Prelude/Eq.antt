-- ===== src/Prelude/Eq.antt =====
-- `PartialEq` as an interface: a Boolean test that decides equality.
use Prim.Native.Nat.{ℕ}
use mathlib.Core.Path.{◌≡◌, refl}
use mathlib.Core.Logic.{◌↔◌}
use mathlib.Core.Bool.{Bool, true, false, ◌&&◌}
use mathlib.Core.List.{List, [], ◌∷◌}
use native.Mathlib.Omega.{arith}
use b_browser.Prelude.Tests.{nat_same, nat_same_iff}
use b_browser.Prelude.Lists.{any}

pub record PartialEq {ℓ} (A : Type ℓ) : Type ℓ where
  pub same : A → A → Bool
  pub same_iff : (a b : A) → (same a b ≡ true) ↔ (a ≡ b)

infix 50 ◌==◌
abbrev pub ◌==◌ {ℓ} : {A : Type ℓ} ⦃e : PartialEq A⦄ → A → A → Bool
◌==◌ ⦃e⦄ = e.same

pub same_refl {ℓ} : {A : Type ℓ} ⦃e : PartialEq A⦄ (a : A) → (a == a) ≡ true
same_refl ⦃e⦄ a = (e.same_iff a a).1 refl

instance abbrev pub nat_eq : PartialEq ℕ
nat_eq = record { same = nat_same; same_iff = nat_same_iff }

module _ {ℓ} {A : Type ℓ} ⦃e : PartialEq A⦄ where
  abbrev pub list_same : List A → List A → Bool
  list_same [] [] = true
  list_same (x ∷ xs) (y ∷ ys) = x == y && list_same xs ys
  list_same _ _ = false

  pub list_same_iff : (xs ys : List A) → (list_same xs ys ≡ true) ↔ (xs ≡ ys)
  list_same_iff [] [] = ground arith
  list_same_iff [] (y ∷ ys) = ground arith
  list_same_iff (x ∷ xs) [] = ground arith
  list_same_iff (x ∷ xs) (y ∷ ys) = ground (arith, e.same_iff x y, list_same_iff xs ys)

  abbrev pub list_eq : PartialEq (List A)
  list_eq = record { same = list_same; same_iff = list_same_iff }

-- A type whose equality is decided.
abbrev pub decides {ℓ} : {A : Type ℓ} {a b : A} → Dec (a ≡ b) → Bool
decides (yes _) = true
decides (no _) = false

pub decides_iff {ℓ} : {A : Type ℓ} {a b : A} (d : Dec (a ≡ b)) → (decides d ≡ true) ↔ (a ≡ b)
decides_iff (yes p) = (λ _. p, λ _. refl)
decides_iff (no n) = (λ e. cc, λ p. absurd (n p))

abbrev pub of_discrete {ℓ} : {A : Type ℓ} → Discrete A → PartialEq A
of_discrete d = record { same = λ a b. decides (d a b); same_iff = λ a b. decides_iff (d a b) }

-- `contains`
abbrev pub contains {ℓ} : {A : Type ℓ} ⦃e : PartialEq A⦄ → List A → A → Bool
contains xs a = any (λ x. a == x) xs
