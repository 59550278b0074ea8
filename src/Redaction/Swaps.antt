-- ===== src/Redaction/Swaps.antt =====
-- The Luhn checksum of a number with two neighbouring digits swapped.
use b_browser.Prelude.{
  Bool, Bool-cases, Str, [], ap, arith, false, ◌&&◌, inl, inr, not, refl, true, ℕ, ◌%◌, ◌++◌, ◌+◌,
  ◌∙◌, ◌∷◌, ◌≡◌, ◌≢◌, ◌⊎◌,
}
use mathlib.Core.List.{append_assoc}
use b_browser.Redaction.{luhn, luhn_loop, is_ascii_digit, rev}
use b_browser.Redaction.Luhn.{
  weight, flag, luhn_loop-from, luhn_loop-append, rev-append, luhn-one_digit,
}

not-not : (b : Bool) → not (not b) ≡ b
not-not true = refl
not-not false = refl

-- The checksum as what two neighbouring characters add to the sum of the others.
luhn-pair :
    (before after : Str) (c d : ℕ)
    → luhn_loop 0 false (rev (before ++ c ∷ d ∷ after))
      ≡ luhn_loop 0 false (rev after)
        + (weight (flag false (rev after)) d
            + (weight (not (flag false (rev after))) c
                + luhn_loop 0 (flag false (rev after)) (rev before)))
luhn-pair before after c d =
    let f = flag false (rev after) in
    let sum = luhn_loop 0 false (rev after) in
    let summed : luhn_loop sum f (d ∷ c ∷ rev before)
        ≡ sum + weight f d + (weight (not f) c + luhn_loop 0 (not (not f)) (rev before)) =
      unfold luhn_loop in
      luhn_loop-from (sum + weight f d) (weight (not f) c) (not (not f)) (rev before) in
    ap (luhn_loop 0 false) (
      rev-append before (c ∷ d ∷ after)
      ∙ append_assoc (rev after ++ d ∷ []) (c ∷ []) (rev before)
      ∙ append_assoc (rev after) (d ∷ []) (c ∷ rev before))
    ∙ luhn_loop-append 0 false (rev after) (d ∷ c ∷ rev before)
    ∙ summed
    ∙ ap (λ g. sum + weight f d + (weight (not f) c + luhn_loop 0 g (rev before))) (not-not f)
    ∙ omega arith

weight-swap :
    (alt : Bool) (c d sum : ℕ)
    → is_ascii_digit c ≡ true
    → is_ascii_digit d ≡ true
    → (sum + (weight alt d + weight (not alt) c)) % 10 ≡ 0
    → (sum + (weight alt c + weight (not alt) d)) % 10 ≡ 0
    → (c ≡ d) ⊎ (((c ≡ 48) × (d ≡ 57)) ⊎ ((c ≡ 57) × (d ≡ 48)))
weight-swap true c d sum hc hd e f = ground arith
weight-swap false c d sum hc hd e f = ground arith

-- The two digits are 0 and 9.
abbrev pub Extremes : ℕ → ℕ → Type 0
Extremes c d = ((c ≡ 48) × (d ≡ 57)) ⊎ ((c ≡ 57) × (d ≡ 48))

luhn-swap :
    (before after : Str) (c d : ℕ)
    → is_ascii_digit c ≡ true
    → is_ascii_digit d ≡ true
    → c ≢ d
    → Extremes c d ⊎ ((luhn (before ++ c ∷ d ∷ after) && luhn (before ++ d ∷ c ∷ after)) ≡ false)
unfolding luhn
luhn-swap before after c d hc hd differ =
    elim (Bool-cases (luhn (before ++ c ∷ d ∷ after) && luhn (before ++ d ∷ c ∷ after))) [
      | inr e ↦ inr e
      | inl e ↦
          let f = flag false (rev after) in
          let sum = luhn_loop 0 false (rev after) + luhn_loop 0 f (rev before) in
          elim (weight-swap f c d sum hc hd (ground (arith, luhn-pair before after c d))
            (ground (arith, luhn-pair before after d c))) [
              | inl same ↦ absurd (differ same)
              | inr p ↦ inl p
            ]
    ]

-- The two slips that the check is for: of two numbers that differ in one digit only one can pass,
-- and so of two numbers that differ by a swap of two different neighbouring digits, unless these
-- are 0 and 9.
pub luhn-slip :
    (before after : Str) (c d : ℕ)
    → is_ascii_digit c ≡ true
    → is_ascii_digit d ≡ true
    → c ≢ d
    → ((luhn (before ++ c ∷ after) && luhn (before ++ d ∷ after)) ≡ false)
      × (Extremes c d
          ⊎ ((luhn (before ++ c ∷ d ∷ after) && luhn (before ++ d ∷ c ∷ after)) ≡ false))
luhn-slip before after c d hc hd differ = (
  ground (arith, luhn-one_digit before after c d hc hd differ),
  luhn-swap before after c d hc hd differ,
)
