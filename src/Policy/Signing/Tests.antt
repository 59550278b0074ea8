-- ===== src/Policy/Signing/Tests.antt =====
-- The unit tests of signing.rs, and the theorems at concrete inputs.
use b_browser.Prelude.{Bool, List, [], chars, err, false, ok, refl, true, ◌↔◌, ◌∷◌, ◌≡◌}
use b_browser.Prelude.Eq.{◌==◌}
use b_browser.Policy.Signing.{
  SigAlg, ed25519, ml_dsa65, SigAlg-discrete, sig_alg_eq, BundleSignature, missing_algorithm,
  bad_signature, verify_bundle,
}
use b_browser.Policy.Signing.Acceptance.{IsFirst, Lacks, verify_bundle_iff, verify_bundle_errors}

abbrev sig : SigAlg → BundleSignature
sig alg = record { alg = alg; key_id = chars "k"; sig = 1 ∷ 2 ∷ 3 ∷ [] }

abbrev both : List BundleSignature
both = sig ed25519 ∷ sig ml_dsa65 ∷ []

abbrev only_classical : BundleSignature → Bool
only_classical s = s.alg == ed25519

requires_both : verify_bundle [] (sig ed25519 ∷ []) (λ _. true) ≡ err (missing_algorithm ml_dsa65)
unfolding verify_bundle SigAlg-discrete
requires_both = refl

accepts_both : verify_bundle [] both (λ _. true) ≡ ok tt
unfolding verify_bundle SigAlg-discrete
accepts_both = refl

rejects_bad : verify_bundle [] both only_classical ≡ err (bad_signature ml_dsa65)
unfolding verify_bundle SigAlg-discrete
rejects_bad = refl

verify_bundle_iff_example : (verify_bundle [] both (λ _. true) ≡ ok tt) ↔ (
    ((c : BundleSignature) × IsFirst ed25519 both c × (true ≡ true))
    × ((p : BundleSignature) × IsFirst ml_dsa65 both p × (true ≡ true)))
verify_bundle_iff_example = verify_bundle_iff [] both (λ _. true)

verify_bundle_errors_run :
    (Lacks ed25519 [] → verify_bundle [] [] (λ _. true) ≡ err (missing_algorithm ed25519))
    × ((c : BundleSignature)
        → IsFirst ed25519 [] c
        → ((Lacks ml_dsa65 [] → verify_bundle [] [] (λ _. true) ≡ err (missing_algorithm ml_dsa65))
            × ((p : BundleSignature)
                → IsFirst ml_dsa65 [] p
                → ((true ≡ false → verify_bundle [] [] (λ _. true) ≡ err (bad_signature ed25519))
                    × (true ≡ true
                        → true ≡ false
                        → verify_bundle [] [] (λ _. true) ≡ err (bad_signature ml_dsa65))))))
verify_bundle_errors_run = verify_bundle_errors [] [] (λ _. true)
