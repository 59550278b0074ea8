-- ===== src/Rendering/Policies.antt =====
-- The decisions on enclaves and on timers.
use b_browser.Prelude.Eq.{same_refl, ◌==◌}
use b_browser.Prelude.{
  Bool, Bool-cases, List, [], any, ap, arith, inl, inr, text_eq, true, ℕ, ◌++◌, ◌↔◌, ◌∷◌, ◌≡◌, ◌≤◌,
}
use b_browser.Rendering.Tee.{Attestation, is_trusted}
use b_browser.Rendering.Throttling.{min_timer_interval_ms, tier}

-- The item is in the list.
abbrev pub IsIn : List ℕ → List (List ℕ) → Type 0
IsIn a xs = (before : List (List ℕ)) × (after : List (List ℕ)) × (xs ≡ before ++ a ∷ after)

any-IsIn : (m : List ℕ) (xs : List (List ℕ)) → (any (λ x. x == m) xs ≡ true) → IsIn m xs
any-IsIn m [] h = absurd (cc)
any-IsIn m (x ∷ xs) h = elim (Bool-cases (x == m)) [
  | inl e ↦ ([], xs, ap (λ y. y ∷ xs) ((text_eq.same_iff x m).0 e))
  | inr e ↦ let rest = any-IsIn m xs (ground arith) in (x ∷ rest.0, rest.1, ap (λ l. x ∷ l) rest.2)
]

IsIn-any :
    (m : List ℕ) (before after : List (List ℕ)) → any (λ x. x == m) (before ++ m ∷ after) ≡ true
IsIn-any m [] after = ground (arith, same_refl m)
IsIn-any m (x ∷ before) after = ground (arith, IsIn-any m before after)

-- An enclave is trusted exactly when its report's signature is valid and its measurement is one of
-- the allowed ones.
pub is_trusted_iff :
    (att : Attestation) (allowed : List (List ℕ))
    → (is_trusted att allowed ≡ true)
      ↔ ((att.signature_valid ≡ true) × IsIn att.measurement allowed)
unfolding is_trusted
is_trusted_iff att allowed = (
  λ h. (ground arith, any-IsIn att.measurement allowed (ground arith)),
  λ (v, i). ground (arith, IsIn-any att.measurement i.0 i.1, i.2),
)

-- More time in the background never shortens the interval of a tab's timers, and bringing the tab
-- to the foreground never lengthens it.
pub tier-intervals :
    (foreground : Bool) (secs more : ℕ)
    → secs ≤ more
    → (min_timer_interval_ms (tier foreground secs) ≤ min_timer_interval_ms (tier foreground more))
      × (min_timer_interval_ms (tier true more) ≤ min_timer_interval_ms (tier foreground secs))
unfolding tier min_timer_interval_ms
tier-intervals foreground secs more h = (ground arith, ground arith)
