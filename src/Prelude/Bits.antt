-- ===== src/Prelude/Bits.antt =====
-- Laws of `bit_xor`, from its lowest binary digit up.
use Prim.Native.Nat.{
  ℕ, zero, suc, ◌+◌, ◌*◌, ◌/◌, ◌%◌, ◌^◌, ◌≤◌, ◌<◌, bit_xor, digits, differ, bit_xor-bitwise,
}
use mathlib.Core.Path.{◌≡◌, refl, ap, ◌∙◌}
use native.Mathlib.Nat.{pow-suc, mod-lt, mod-eq_of_lt, div-add-mod, add-mul-mod_self_left}
use native.Mathlib.Omega.{arith}

-- The recursion on digits that `bit_xor` stands for, with its fuel explicit.
abbrev xor_from : ℕ → ℕ → ℕ → ℕ
xor_from = digits (λ b. b) differ

xor_from_enough : (n m a b : ℕ) → a ≤ n → a ≤ m → xor_from n a b ≡ xor_from m a b
xor_from_enough zero zero a b _ _ = refl
xor_from_enough zero (suc m) zero b _ _ = refl
xor_from_enough (suc n) zero zero b _ _ = refl
xor_from_enough (suc n) (suc m) zero b _ _ = refl
xor_from_enough zero (suc m) (suc a) b p _ = absurd (omega arith)
xor_from_enough (suc n) zero (suc a) b _ q = absurd (omega arith)
xor_from_enough (suc n) (suc m) (suc a) b p q =
    let halves = xor_from_enough n m (suc a / 2) (b / 2) (omega arith) (omega arith) in
    omega (arith, halves)

zero-xor : (b : ℕ) → bit_xor 0 b ≡ b
zero-xor b = bit_xor-bitwise 0 b

differ_mod : (a b : ℕ) → a < 2 → b < 2 → differ a b ≡ (a + b) % 2
differ_mod zero zero _ _ = refl
differ_mod zero (suc zero) _ _ = refl
differ_mod (suc zero) zero _ _ = refl
differ_mod (suc zero) (suc zero) _ _ = refl
differ_mod (suc (suc a)) b p _ = absurd (omega arith)
differ_mod zero (suc (suc b)) _ q = absurd (omega arith)
differ_mod (suc zero) (suc (suc b)) _ q = absurd (omega arith)

-- One digit of the result, and the rest.
pub xor_step : (a b : ℕ) → bit_xor a b ≡ bit_xor (a / 2) (b / 2) * 2 + (a % 2 + b % 2) % 2
xor_step zero b = omega (arith, zero-xor b, zero-xor (b / 2))
xor_step (suc a) b =
    let whole = bit_xor-bitwise (suc a) b in
    let halves = bit_xor-bitwise (suc a / 2) (b / 2) in
    let same = xor_from_enough a (suc a / 2) (suc a / 2) (b / 2) (omega arith) (omega arith) in
    omega (arith, whole, halves, same, differ_mod (suc a % 2) (b % 2) (omega arith) (omega arith))

-- The digits of the result, apart.
xor_halves :
    (a b : ℕ)
    → (bit_xor a b / 2 ≡ bit_xor (a / 2) (b / 2)) × (bit_xor a b % 2 ≡ (a % 2 + b % 2) % 2)
xor_halves a b = (omega (arith, xor_step a b), omega (arith, xor_step a b))

cancel_step :
    (a b : ℕ) → bit_xor (bit_xor (a / 2) (b / 2)) (b / 2) ≡ a / 2 → bit_xor (bit_xor a b) b ≡ a
cancel_step a b h =
    let low = (xor_halves a b).1 in
    let high : bit_xor (bit_xor a b / 2) (b / 2) ≡ a / 2 = rw ((xor_halves a b).0) h in
    omega (arith, xor_step (bit_xor a b) b, low, high)

xor_cancel_below : (n a b : ℕ) → a + b ≤ n → bit_xor (bit_xor a b) b ≡ a
xor_cancel_below zero zero zero h = refl
xor_cancel_below zero (suc a) b h = absurd (omega arith)
xor_cancel_below zero zero (suc b) h = absurd (omega arith)
xor_cancel_below (suc n) zero zero h = refl
xor_cancel_below (suc n) zero (suc b) h =
    cancel_step 0 (suc b) (xor_cancel_below n (0 / 2) (suc b / 2) (omega arith))
xor_cancel_below (suc n) (suc a) b h =
    cancel_step (suc a) b (xor_cancel_below n (suc a / 2) (b / 2) (omega arith))

-- The same key twice gives back the text.
pub xor_cancel : (a b : ℕ) → bit_xor (bit_xor a b) b ≡ a
xor_cancel a b = xor_cancel_below (a + b) a b (omega arith)

-- The result is as wide as its arguments.
pub xor-lt : (k a b : ℕ) → a < 2 ^ k → b < 2 ^ k → bit_xor a b < 2 ^ k
xor-lt zero zero zero p q = omega arith
xor-lt zero zero (suc b) p q = absurd (omega arith)
xor-lt zero (suc a) b p q = absurd (omega arith)
xor-lt (suc k) a b p q =
    let halves =
      xor-lt k (a / 2) (b / 2) (omega (arith, pow-suc 2 k)) (omega (arith, pow-suc 2 k)) in
    omega (arith, pow-suc 2 k, xor_step a b, halves)

xor_comm_below : (n a b : ℕ) → a + b ≤ n → bit_xor a b ≡ bit_xor b a
xor_comm_below zero zero zero h = refl
xor_comm_below zero (suc a) b h = absurd (omega arith)
xor_comm_below zero zero (suc b) h = absurd (omega arith)
xor_comm_below (suc n) zero zero h = refl
xor_comm_below (suc n) zero (suc b) h =
    let halves = xor_comm_below n (0 / 2) (suc b / 2) (omega arith) in
    omega (arith, xor_step 0 (suc b), xor_step (suc b) 0, halves)
xor_comm_below (suc n) (suc a) b h =
    let halves = xor_comm_below n (suc a / 2) (b / 2) (omega arith) in
    omega (arith, xor_step (suc a) b, xor_step b (suc a), halves)

pub xor_comm : (a b : ℕ) → bit_xor a b ≡ bit_xor b a
xor_comm a b = xor_comm_below (a + b) a b (omega arith)

mod_double : (m a : ℕ) → 0 < m → a % (m * 2) ≡ a / 2 % m * 2 + a % 2
mod_double m a pos =
    let whole : a ≡ (a / 2 % m * 2 + a % 2) + m * 2 * (a / 2 / m) =
      omega (arith, div-add-mod (a / 2) m) in
    let low : a / 2 % m * 2 + a % 2 < m * 2 = omega (arith, mod-lt (a / 2) pos) in
    ap (λ t. t % (m * 2)) whole
    ∙ add-mul-mod_self_left (a / 2 % m * 2 + a % 2) (m * 2) (a / 2 / m)
    ∙ mod-eq_of_lt low

pow_two_pos : (k : ℕ) → 0 < 2 ^ k
pow_two_pos zero = omega arith
pow_two_pos (suc k) = omega (arith, pow-suc 2 k, pow_two_pos k)

-- The low digits of the result are those of the low digits.
pub xor-mod : (k a b : ℕ) → bit_xor a b % 2 ^ k ≡ bit_xor (a % 2 ^ k) (b % 2 ^ k)
xor-mod zero a b =
    let ha : a % 2 ^ 0 ≡ 0 = omega arith in
    let hb : b % 2 ^ 0 ≡ 0 = omega arith in rw (ha, hb) (omega arith)
xor-mod (suc k) a b =
    let m = 2 ^ k in
    let pos = pow_two_pos k in
    let low_a : a % 2 ^ suc k ≡ a / 2 % m * 2 + a % 2 = rw (pow-suc 2 k) (mod_double m a pos) in
    let low_b : b % 2 ^ suc k ≡ b / 2 % m * 2 + b % 2 = rw (pow-suc 2 k) (mod_double m b pos) in
    let half_a : a % 2 ^ suc k / 2 ≡ a / 2 % m = omega (arith, low_a) in
    let half_b : b % 2 ^ suc k / 2 ≡ b / 2 % m = omega (arith, low_b) in
    let low : bit_xor a b % 2 ^ suc k ≡ bit_xor a b / 2 % m * 2 + bit_xor a b % 2 =
      rw (pow-suc 2 k) (mod_double m (bit_xor a b) pos) in
    let ih : bit_xor a b / 2 % m ≡ bit_xor (a / 2 % m) (b / 2 % m) =
      ap (λ t. t % m) (xor_halves a b).0 ∙ xor-mod k (a / 2) (b / 2) in
    let step = xor_step (a % 2 ^ suc k) (b % 2 ^ suc k) in
    let halves : bit_xor (a % 2 ^ suc k / 2) (b % 2 ^ suc k / 2) ≡ bit_xor (a / 2 % m) (b / 2 % m) =
      rw (half_a, half_b) refl in
    omega (arith, low, ih, (xor_halves a b).1, step, halves, low_a, low_b)
