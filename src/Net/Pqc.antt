-- ===== src/Net/Pqc.antt =====
-- engine/net/src/pqc.rs: the key-exchange group of a handshake.
use b_browser.Prelude.Eq.{contains, of_discrete, PartialEq}
use b_browser.Prelude.{Bool, List, Option, [], false, find, true, ◌&&◌, ◌∷◌}

pub data KemGroup : Type 0 where
  x25519 ml_kem768 x25519_ml_kem768 : KemGroup

unfoldable pub KemGroup-discrete : Discrete KemGroup
KemGroup-discrete = hlevel

instance abbrev pub kem_group_eq : PartialEq KemGroup
kem_group_eq = of_discrete KemGroup-discrete

pub data PqEnforcement : Type 0 where
  disabled preferred required : PqEnforcement

unfoldable pub offered_groups : PqEnforcement → List KemGroup
offered_groups disabled = x25519 ∷ []
offered_groups preferred = x25519_ml_kem768 ∷ ml_kem768 ∷ x25519 ∷ []
offered_groups required = x25519_ml_kem768 ∷ ml_kem768 ∷ []

unfoldable pub is_acceptable : KemGroup → PqEnforcement → Bool
is_acceptable group disabled = true
is_acceptable group preferred = true
is_acceptable x25519_ml_kem768 required = true
is_acceptable ml_kem768 required = true
is_acceptable x25519 required = false

unfoldable pub negotiate : List KemGroup → PqEnforcement → Option KemGroup
unfolding offered_groups is_acceptable
negotiate server_supported policy =
    find (λ g. contains server_supported g && is_acceptable g policy) (offered_groups policy)
