-- ===== src/Prelude/Floats.antt =====
-- The floats of the code, `f32` and `f64`: a type with the operations that the code calls, and what
-- IEEE 754 says of them. No float is computed here.
use mathlib.Core.Logic.{◌⊎◌, inl, inr}
use mathlib.Core.Path.{refl}
use native.Mathlib.Nat.{
  mul-one, mul-le-mul_right, le-div_iff_mul-le, div-mul-le_self, div-le_of_le-mul,
}
use native.Mathlib.Omega.{arith}
use Prim.Native.Nat.{ℕ, ◌+◌, ◌-◌, ◌*◌, ◌/◌, ◌^◌, ◌≤◌, ◌<◌}
use mathlib.Core.Path.{◌≡◌}
use mathlib.Core.Bool.{Bool, true, false}
use mathlib.Core.Option.{Option, none, some}
use b_browser.Prelude.Tests.{ltb, leb, if◌then◌else◌}

-- `literal n d` is the float nearest to n / 10^d. `le`, `lt` and `gt` are `<=`, `<` and `>`.
pub record Float {ℓ} (F : Type ℓ) : Type ℓ where
  pub literal : ℕ → ℕ → F
  pub infinity : F
  pub is_finite : F → Bool
  pub add : F → F → F
  pub sub : F → F → F
  pub mul : F → F → F
  pub div : F → F → F
  pub sqrt : F → F
  pub le : F → F → Bool
  pub lt : F → F → Bool
  pub gt : F → F → Bool

infix 4 ◌≼◌
abbrev pub ◌≼◌ {ℓ} : {F : Type ℓ} ⦃f : Float F⦄ → F → F → Type 0
◌≼◌ ⦃f⦄ x y = f.le x y ≡ true

module _ {ℓ} {F : Type ℓ} ⦃f : Float F⦄ where
  abbrev pub nought : F
  nought = f.literal 0 0

  abbrev pub unity : F
  unity = f.literal 1 0

  -- A float that is not NaN: only NaN is not `<=` itself.
  abbrev pub IsNumber : F → Type 0
  IsNumber x = x ≼ x

  -- `clamp(0.0, 1.0)`
  abbrev pub clamp_unit : F → F
  clamp_unit x = if f.lt x nought then nought else if f.gt x unity then unity else x

-- The order is total away from NaN; what is taken from a finite amount leaves no more than it was,
-- and no less than nothing if it was no more than the amount; a factor between 0 and 1 does not
-- increase a finite amount, and sums are monotone.
pub record IsIeee {ℓ} (F : Type ℓ) ⦃f : Float F⦄ : Type ℓ where
  pub number_of_le : (x y : F) → x ≼ y → IsNumber x × IsNumber y
  pub le_trans : (x y z : F) → x ≼ y → y ≼ z → x ≼ z
  pub le_total : (x y : F) → IsNumber x → IsNumber y → f.le x y ≡ false → y ≼ x
  pub not-lt : (x y : F) → IsNumber x → IsNumber y → f.lt x y ≡ false → y ≼ x
  pub not-gt : (x y : F) → IsNumber x → IsNumber y → f.gt x y ≡ false → x ≼ y
  pub gt-eq : (x y : F) → IsNumber x → IsNumber y → f.gt x y ≡ true → f.le x y ≡ false
  pub lt-eq : (x y : F) → f.lt x y ≡ true → f.le y x ≡ false
  pub literal_finite : (n d : ℕ) → n ≤ 1000 → f.is_finite (f.literal n d) ≡ true
  pub nought_le_literal : (n d : ℕ) → nought ≼ f.literal n d
  pub literal_le_unity : (n d : ℕ) → n ≤ 10 ^ d → f.literal n d ≼ unity
  pub sub_bounds :
      (r c : F)
      → f.is_finite r ≡ true
      → nought ≼ c
      → c ≼ r
      → (nought ≼ f.sub r c) × (f.sub r c ≼ r) × (f.is_finite (f.sub r c) ≡ true)
  pub finite_below : (x y : F) → nought ≼ x → x ≼ y → f.is_finite y ≡ true → f.is_finite x ≡ true
  pub mul_comm : (x y : F) → f.is_finite x ≡ true → f.is_finite y ≡ true → f.mul x y ≡ f.mul y x
  pub mul_unit :
      (r w : F)
      → nought ≼ r
      → r ≼ unity
      → nought ≼ w
      → f.is_finite w ≡ true
      → (nought ≼ f.mul r w) × (f.mul r w ≼ w)
  pub add_mono : (a b c d : F) → nought ≼ a → nought ≼ b → a ≼ c → b ≼ d → f.add a b ≼ f.add c d
  pub mul_mono :
      (x y w : F)
      → f.is_finite y ≡ true
      → f.is_finite w ≡ true
      → nought ≼ x
      → x ≼ y
      → nought ≼ w
      → f.mul x w ≼ f.mul y w
  pub div_mono :
      (x y w : F)
      → x ≼ y
      → f.gt w nought ≡ true
      → IsNumber (f.div x w)
      → IsNumber (f.div y w)
      → f.div x w ≼ f.div y w
  pub le-add : (a b : F) → nought ≼ a → nought ≼ b → a ≼ f.add a b

-- The laws can be met: whole amounts, `none` for every float that is not a finite number.
abbrev pub Whole : Type 0
Whole = Option ℕ

abbrev pub on_wholes : (ℕ → ℕ → ℕ) → Whole → Whole → Whole
on_wholes g (some a) (some b) = some (g a b)
on_wholes g _ _ = none

abbrev pub test_wholes : (ℕ → ℕ → Bool) → Whole → Whole → Bool
test_wholes p (some a) (some b) = p a b
test_wholes p _ _ = false

abbrev pub is_whole : Whole → Bool
is_whole none = false
is_whole (some a) = true

instance abbrev pub whole_float : Float Whole
whole_float = record {
  literal = λ n d. some (n / 10 ^ d);
  infinity = none;
  is_finite = is_whole;
  add = on_wholes λ a b. a + b;
  sub = on_wholes λ a b. a - b;
  mul = on_wholes λ a b. a * b;
  div = on_wholes λ a b. a / b;
  sqrt = λ a. a;
  le = test_wholes leb;
  lt = test_wholes ltb;
  gt = test_wholes λ a b. ltb b a;
}

le_one : (a : ℕ) → a ≤ 1 → (a ≡ 0) ⊎ (a ≡ 1)
le_one a h = ground arith

unit_mul : (a b : ℕ) → a ≤ 1 → a * b ≤ b
unit_mul a b h = elim (le_one a h) [ inl e ↦ rw e (omega arith) | inr e ↦ rw e (omega arith) ]

whole_mul :
    (r w : Whole)
    → some 0 ≼ r
    → r ≼ some 1
    → some 0 ≼ w
    → (some 0 ≼ on_wholes (λ a b. a * b) r w) × (on_wholes (λ a b. a * b) r w ≼ w)
whole_mul none w lo hi nn = absurd (ground arith)
whole_mul (some r) none lo hi nn = absurd (ground arith)
whole_mul (some r) (some w) lo hi nn = (ground arith, ground (arith, unit_mul r w))

whole_mono :
    (x y w : Whole)
    → some 0 ≼ x
    → x ≼ y
    → some 0 ≼ w
    → on_wholes (λ a b. a * b) x w ≼ on_wholes (λ a b. a * b) y w
whole_mono none y w x0 h w0 = absurd (ground arith)
whole_mono (some x) none w x0 h w0 = absurd (ground arith)
whole_mono (some x) (some y) none x0 h w0 = absurd (ground arith)
whole_mono (some x) (some y) (some w) x0 h w0 = ground (arith, mul-le-mul_right {m = x} {n = y} w)

nat_div_mono : (x y w : ℕ) → x ≤ y → 0 < w → x / w ≤ y / w
nat_div_mono x y w h pos = (le-div_iff_mul-le pos).1 (omega (arith, h, div-mul-le_self x w))

whole_div :
    (x y w : Whole)
    → x ≼ y
    → whole_float.gt w (some 0) ≡ true
    → on_wholes (λ a b. a / b) x w ≼ on_wholes (λ a b. a / b) y w
whole_div none y w h pos = absurd (ground arith)
whole_div (some x) none w h pos = absurd (ground arith)
whole_div (some x) (some y) none h pos = absurd (ground arith)
whole_div (some x) (some y) (some w) h pos = ground (arith, nat_div_mono x y w)

pub Whole-IsIeee : IsIeee Whole
Whole-IsIeee = record {
  number_of_le = λ x y h. ground arith;
  le_trans = λ x y z h k. ground arith;
  le_total = λ x y a b h. ground arith;
  not-lt = λ x y a b h. ground arith;
  not-gt = λ x y a b h. ground arith;
  gt-eq = λ x y a b h. ground arith;
  lt-eq = λ x y h. ground arith;
  literal_finite = λ n d small. refl;
  nought_le_literal = λ n d. ground arith;
  literal_le_unity =
      λ n d h. ground (arith, mul-one (10 ^ d), div-le_of_le-mul (10 ^ d) {m = n} {n = 1});
  sub_bounds = λ r c fin lo hi. ground arith;
  finite_below = λ x y lo hi fin. ground arith;
  mul_comm = λ x y fin other. ground arith;
  mul_unit = λ r w lo hi nn fin. whole_mul r w lo hi nn;
  add_mono = λ a b c d a0 b0 h k. ground arith;
  mul_mono = λ x y w fin other x0 h w0. whole_mono x y w x0 h w0;
  div_mono = λ x y w h pos a b. whole_div x y w h pos;
  le-add = λ a b a0 b0. ground arith;
}
