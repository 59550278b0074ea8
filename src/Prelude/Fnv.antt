-- ===== src/Prelude/Fnv.antt =====
-- The FNV-1a step that several crates write out: `h ^= x; h = h.wrapping_mul(1099511628211)`.
use Prim.Native.Nat.{ℕ, ◌*◌, ◌%◌, ◌^◌, ◌<◌, bit_xor}
use mathlib.Core.Path.{◌≡◌, sym, ap, ◌∙◌}
use mathlib.Core.List.{List, [], ◌∷◌, ◌++◌}
use native.Mathlib.Omega.{arith}
use b_browser.Prelude.Lists.{All}
use b_browser.Prelude.Bits.{xor_cancel, xor_comm, xor-lt}

abbrev pub fnv_offset : ℕ
fnv_offset = 1469598103934665603

abbrev pub fnv_prime : ℕ
fnv_prime = 1099511628211

-- `wrapping_mul` by the prime
unfoldable pub times_prime : ℕ → ℕ
times_prime h = h * fnv_prime % 2 ^ 64

unfoldable pub fnv_step : ℕ → ℕ → ℕ
unfolding times_prime
fnv_step h x = times_prime (bit_xor h x)

-- The prime is odd, so it has an inverse modulo 2 ^ 64.
abbrev prime_inverse : ℕ
prime_inverse = 14886173955864302971

times_prime_inverse : (y : ℕ) → y < 2 ^ 64 → times_prime y * prime_inverse % 2 ^ 64 ≡ y
unfolding times_prime
times_prime_inverse y h = omega arith

pub times_prime_injective :
    (y z : ℕ) → y < 2 ^ 64 → z < 2 ^ 64 → times_prime y ≡ times_prime z → y ≡ z
times_prime_injective y z hy hz e = omega (
  arith,
  times_prime_inverse y hy,
  times_prime_inverse z hz,
  ap (λ (t : ℕ). t * prime_inverse % 2 ^ 64) e,
)

pub fnv_step-lt : (h x : ℕ) → fnv_step h x < 2 ^ 64
unfolding fnv_step
fnv_step-lt h x = omega arith

-- The step can be undone: in the state, for a fixed byte, and in the byte, for a fixed state.
pub fnv_step_injective_state :
    (g h x : ℕ) → g < 2 ^ 64 → h < 2 ^ 64 → x < 2 ^ 64 → fnv_step g x ≡ fnv_step h x → g ≡ h
unfolding fnv_step
fnv_step_injective_state g h x pg ph px e =
    let same =
      times_prime_injective (bit_xor g x) (bit_xor h x) (xor-lt 64 g x pg px) (xor-lt 64 h x ph px)
        e in
    sym (xor_cancel g x) ∙ ap (λ t. bit_xor t x) same ∙ xor_cancel h x

pub fnv_step_injective_byte :
    (h x y : ℕ) → h < 2 ^ 64 → x < 2 ^ 64 → y < 2 ^ 64 → fnv_step h x ≡ fnv_step h y → x ≡ y
unfolding fnv_step
fnv_step_injective_byte h x y ph px py e =
    let same =
      times_prime_injective (bit_xor h x) (bit_xor h y) (xor-lt 64 h x ph px) (xor-lt 64 h y ph py)
        e in
    sym (xor_cancel x h)
    ∙ ap (λ t. bit_xor t h) (xor_comm x h ∙ same ∙ xor_comm h y)
    ∙ xor_cancel y h

-- The loop over the bytes, from a state.
unfoldable pub fnv_from : ℕ → List ℕ → ℕ
unfolding fnv_step
fnv_from h [] = h
fnv_from h (b ∷ rest) = fnv_from (fnv_step h b) rest

abbrev pub AreBytes : List ℕ → Type 0
AreBytes = All (λ b. b < 256)

pub fnv_from-lt : (h : ℕ) (bytes : List ℕ) → h < 2 ^ 64 → fnv_from h bytes < 2 ^ 64
unfolding fnv_from
fnv_from-lt h [] p = p
fnv_from-lt h (b ∷ rest) p = fnv_from-lt (fnv_step h b) rest (fnv_step-lt h b)

fnv_from_injective :
    (g h : ℕ) (bytes : List ℕ)
    → g < 2 ^ 64
    → h < 2 ^ 64
    → AreBytes bytes
    → fnv_from g bytes ≡ fnv_from h bytes
    → g ≡ h
unfolding fnv_from
fnv_from_injective g h [] pg ph v e = e
fnv_from_injective g h (b ∷ rest) pg ph v e = fnv_step_injective_state g h b pg ph (omega arith) (
    fnv_from_injective (fnv_step g b) (fnv_step h b) rest (fnv_step-lt g b) (fnv_step-lt h b) v.1 e)

pub fnv_from_differ :
    (h : ℕ) (before after : List ℕ) (x y : ℕ)
    → h < 2 ^ 64
    → x < 256
    → y < 256
    → AreBytes after
    → fnv_from h (before ++ x ∷ after) ≡ fnv_from h (before ++ y ∷ after)
    → x ≡ y
unfolding fnv_from
fnv_from_differ h [] after x y p px py v e =
    fnv_step_injective_byte h x y p (omega arith) (omega arith) (
      fnv_from_injective (fnv_step h x) (fnv_step h y) after (fnv_step-lt h x) (fnv_step-lt h y) v
        e)
fnv_from_differ h (b ∷ before) after x y p px py v e =
    fnv_from_differ (fnv_step h b) before after x y (fnv_step-lt h b) px py v e
