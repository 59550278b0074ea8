-- ===== src/Net/Tls.antt =====
-- engine/net/src/tls.rs: the version floor, and certificate transparency.
use b_browser.Prelude.{Bool, if◌then◌else◌, leb, ℕ}

pub data TlsVersion : Type 0 where
  tls10 tls11 tls12 tls13 : TlsVersion

-- The order that is derived.
abbrev pub rank : TlsVersion → ℕ
rank tls10 = 0
rank tls11 = 1
rank tls12 = 2
rank tls13 = 3

pub data TlsDecision : Type 0 where
  accept refuse_downgrade : TlsDecision

abbrev pub min_tls_version : TlsVersion
min_tls_version = tls13

-- Read by no function.
pub data CertSigAlg : Type 0 where
  ed25519 ecdsa_p256 rsa_pss2048 ml_dsa65 : CertSigAlg

unfoldable pub check_version : TlsVersion → TlsDecision
check_version offered =
    if leb (rank min_tls_version) (rank offered) then accept else refuse_downgrade

unfoldable pub ct_required : Bool → Bool
ct_required is_publicly_trusted = is_publicly_trusted
