-- ===== src/Prelude/Splits.antt =====
-- What `split_once` finds: the text around the first occurrence.
use Prim.Native.Nat.{ℕ}
use mathlib.Core.Path.{◌≡◌, sym, ap, ◌∙◌}
use mathlib.Core.Logic.{inl, inr}
use mathlib.Core.Option.{Option, some}
use mathlib.Core.List.{[], ◌∷◌, ◌++◌}
use native.Mathlib.Omega.{arith}
use b_browser.Prelude.Tests.{nat_same, Bool-cases, Option-cases}
use b_browser.Prelude.Lists.{All}
use b_browser.Prelude.Text.{Str, split_once}

-- The character does not occur in the text.
abbrev pub Lacks : ℕ → Str → Type 0
Lacks c = All (λ x. ¬ (x ≡ c))

pub split_once-join :
    (c : ℕ) (before after : Str)
    → Lacks c before
    → split_once c (before ++ c ∷ after) ≡ some (before, after)
split_once-join c [] after h = ground arith
split_once-join c (x ∷ before) after h = ground (arith, split_once-join c before after h.1, h.0)

pub split_once-found :
    (c : ℕ) (s before after : Str)
    → split_once c s ≡ some (before, after)
    → (s ≡ before ++ c ∷ after) × Lacks c before
split_once-found c [] before after h = absurd (cc)
split_once-found c (x ∷ s) before after h = elim (Bool-cases (nat_same x c)) [
  | inl e ↦
      let b : [] ≡ before = ground arith in
      let a : s ≡ after = ground arith in
      let x≡c : x ≡ c = ground arith in (rw (sym b, sym a, x≡c), rw (sym b) tt)
  | inr e ↦ elim (Option-cases (split_once c s)) [
    | inl n ↦ absurd (ground arith)
    | inr ((b, a), f) ↦
        let ih = split_once-found c s b a f in
        let before_is : x ∷ b ≡ before = ground arith in
        let after_is : a ≡ after = ground arith in
        (
          rw (sym before_is, sym after_is) (ap (λ l. x ∷ l) ih.0),
          rw (sym before_is) (λ p. ground arith, ih.1),
        )
  ]
]

-- The texts on both sides of a separator are determined when it does not occur in the first.
pub join-Injective :
    (c : ℕ) (a b a' b' : Str)
    → Lacks c a
    → Lacks c a'
    → a ++ c ∷ b ≡ a' ++ c ∷ b'
    → (a ≡ a') × (b ≡ b')
join-Injective c a b a' b' h h' e =
    let same : ◌≡◌ {A = Option (Str × Str)} (some (a, b)) (some (a', b')) =
      sym (split_once-join c a b h) ∙ ap (split_once c) e ∙ split_once-join c a' b' h' in
    (ground arith, ground arith)
