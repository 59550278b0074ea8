-- ===== src/Policy/Signing.antt =====
-- admin/policy-engine/src/signing.rs: the gate that a policy bundle passes. The verifier of one
-- signature is the caller's closure, `verify_one`.
pub mod Acceptance
mod Tests
use b_browser.Prelude.Outcomes.{◌>>=◌, ok_or}
use b_browser.Prelude.{Bool, List, Result, Str, err, find, if◌then◌else◌, not, ok, ℕ}
use b_browser.Prelude.Eq.{PartialEq, ◌==◌, of_discrete}

pub data SigAlg : Type 0 where
  ed25519 ml_dsa65 : SigAlg

unfoldable pub SigAlg-discrete : Discrete SigAlg
SigAlg-discrete = hlevel

instance abbrev pub sig_alg_eq : PartialEq SigAlg
sig_alg_eq = of_discrete SigAlg-discrete

pub record BundleSignature : Type 0 where
  pub alg : SigAlg
  pub key_id : Str
  pub sig : List ℕ

pub data VerifyError : Type 0 where
  missing_algorithm : SigAlg → VerifyError
  bad_signature : SigAlg → VerifyError

unfoldable pub verify_bundle :
    List ℕ → List BundleSignature → (BundleSignature → Bool) → Result (Unit {0}) VerifyError
verify_bundle bundle_bytes signatures verify_one = do
  let has = λ (alg : SigAlg). find (λ (s : BundleSignature). s.alg == alg) signatures
  classical ← ok_or (has ed25519) (missing_algorithm ed25519)
  pq ← ok_or (has ml_dsa65) (missing_algorithm ml_dsa65)
  if not (verify_one classical)
      then err (bad_signature ed25519)
      else if not (verify_one pq)
      then err (bad_signature ml_dsa65)
      else ok tt
