-- ===== src/Net/Groups.antt =====
-- What is negotiated, against the preference hybrid, pure ML-KEM, classical.
use b_browser.Prelude.Eq.{contains}
use b_browser.Prelude.{refl, arith, List, false, none, some, true, ℕ, ◌≡◌, ◌≢◌, ◌≤◌}
use b_browser.Net.Pqc.{
  KemGroup, x25519, ml_kem768, x25519_ml_kem768, kem_group_eq, PqEnforcement, disabled, preferred,
  required, negotiate,
}

-- How much a group is preferred.
abbrev pub strength : KemGroup → ℕ
strength x25519 = 1
strength ml_kem768 = 2
strength x25519_ml_kem768 = 3

-- What the policy lets a handshake use.
abbrev pub Permits : PqEnforcement → KemGroup → Type 0
Permits disabled g = g ≡ x25519
Permits preferred g = Unit
Permits required g = g ≢ x25519

-- The strongest group that the server supports and the policy permits.
abbrev pub IsBest : List KemGroup → PqEnforcement → KemGroup → Type 0
IsBest server policy g =
    (contains server g ≡ true)
    × Permits policy g
    × ((h : KemGroup) → contains server h ≡ true → Permits policy h → strength h ≤ strength g)

negotiated_best :
    (server : List KemGroup) (policy : PqEnforcement) (g h : KemGroup)
    → negotiate server policy ≡ some g
    → contains server h ≡ true
    → Permits policy h
    → strength h ≤ strength g
unfolding negotiate
negotiated_best server disabled g x25519 e k p = ground arith
negotiated_best server disabled g ml_kem768 e k p = ground arith
negotiated_best server disabled g x25519_ml_kem768 e k p = ground arith
negotiated_best server preferred g x25519 e k p = ground arith
negotiated_best server preferred g ml_kem768 e k p = ground arith
negotiated_best server preferred g x25519_ml_kem768 e k p = ground arith
negotiated_best server required g x25519 e k p = ground arith
negotiated_best server required g ml_kem768 e k p = ground arith
negotiated_best server required g x25519_ml_kem768 e k p = ground arith

negotiated :
    (server : List KemGroup) (policy : PqEnforcement) (g : KemGroup)
    → negotiate server policy ≡ some g
    → (contains server g ≡ true) × Permits policy g
unfolding negotiate
negotiated server disabled x25519 e = (ground arith, refl)
negotiated server disabled ml_kem768 e = absurd (ground arith)
negotiated server disabled x25519_ml_kem768 e = absurd (ground arith)
negotiated server preferred x25519 e = (ground arith, tt)
negotiated server preferred ml_kem768 e = (ground arith, tt)
negotiated server preferred x25519_ml_kem768 e = (ground arith, tt)
negotiated server required x25519 e = absurd (ground arith)
negotiated server required ml_kem768 e = (ground arith, λ p. ground arith)
negotiated server required x25519_ml_kem768 e = (ground arith, λ p. ground arith)

not_negotiated :
    (server : List KemGroup) (policy : PqEnforcement) (g : KemGroup)
    → negotiate server policy ≡ none
    → Permits policy g
    → contains server g ≡ false
unfolding negotiate
not_negotiated server disabled g e p = rw p (ground arith)
not_negotiated server preferred x25519 e p = ground arith
not_negotiated server preferred ml_kem768 e p = ground arith
not_negotiated server preferred x25519_ml_kem768 e p = ground arith
not_negotiated server required x25519 e p = absurd (p refl)
not_negotiated server required ml_kem768 e p = ground arith
not_negotiated server required x25519_ml_kem768 e p = ground arith

-- What is negotiated is the strongest group that the server supports and the policy permits, and
-- the handshake fails exactly when there is none: classical X25519 is never used when a
-- post-quantum group is required, nor when the server supports a post-quantum group and these are
-- not disabled.
pub negotiate-IsBest :
    (server : List KemGroup) (policy : PqEnforcement)
    → ((g : KemGroup) → negotiate server policy ≡ some g → IsBest server policy g)
      × (negotiate server policy ≡ none
          → (g : KemGroup) → Permits policy g
          → contains server g ≡ false)
negotiate-IsBest server policy = (
  λ g e. (
    (negotiated server policy g e).0,
    (negotiated server policy g e).1,
    λ h. negotiated_best server policy g h e,
  ),
  λ e g. not_negotiated server policy g e,
)
