-- ===== src/Policy/Signing/Acceptance.antt =====
-- When `verify_bundle` accepts, and what it reports.
use b_browser.Prelude.Eq.{◌==◌}
use b_browser.Prelude.{
  All, Bool, Bool-cases, List, Option, Option-cases, [], ap, arith, err, false, find, inl, inr,
  none, ok, refl, some, sym, true, ℕ, ◌++◌, ◌↔◌, ◌∙◌, ◌∷◌, ◌≡◌, ◌≢◌,
}
use b_browser.Policy.Signing.{
  SigAlg, ed25519, ml_dsa65, sig_alg_eq, BundleSignature, missing_algorithm, bad_signature,
  verify_bundle,
}

-- `s` is the first signature of the list with its algorithm.
pub record IsFirst (alg : SigAlg) (sigs : List BundleSignature) (s : BundleSignature) : Type 0 where
  pub before : List BundleSignature
  pub after : List BundleSignature
  pub place : sigs ≡ before ++ s ∷ after
  pub same_alg : s.alg ≡ alg
  pub none_before : All (λ (t : BundleSignature). t.alg ≢ alg) before

-- No signature of the list has the algorithm.
abbrev pub Lacks : SigAlg → List BundleSignature → Type 0
Lacks alg = All (λ s. s.alg ≢ alg)

abbrev find_alg : SigAlg → List BundleSignature → Option BundleSignature
find_alg alg = find (λ s. s.alg == alg)

find_IsFirst :
    (alg : SigAlg) (sigs : List BundleSignature) (s : BundleSignature)
    → find_alg alg sigs ≡ some s
    → IsFirst alg sigs s
find_IsFirst alg [] s h = absurd (cc)
find_IsFirst alg (t ∷ sigs) s h = elim (Bool-cases (t.alg == alg)) [
  | inl e ↦
      let same : t ≡ s = ground arith in
      record {
        before = [];
        after = sigs;
        place = ap (λ x. x ∷ sigs) same;
        same_alg =
            ap (λ (x : BundleSignature). x.alg) (sym same) ∙ (sig_alg_eq.same_iff t.alg alg).0 e;
        none_before = tt;
      }
  | inr e ↦
      let f = find_IsFirst alg sigs s (ground arith) in
      record {
        before = t ∷ f.before;
        after = f.after;
        place = ap (λ x. t ∷ x) f.place;
        same_alg = f.same_alg;
        none_before = (λ p. ground (arith, sig_alg_eq.same_iff t.alg alg), f.none_before);
      }
]

find_skip :
    (alg : SigAlg) (before rest : List BundleSignature)
    → Lacks alg before
    → find_alg alg (before ++ rest) ≡ find_alg alg rest
find_skip alg [] rest h = refl
find_skip alg (t ∷ before) rest h =
    ground (arith, find_skip alg before rest h.1, sig_alg_eq.same_iff t.alg alg)

find_first :
    (alg : SigAlg) (sigs : List BundleSignature) (s : BundleSignature)
    → IsFirst alg sigs s
    → find_alg alg sigs ≡ some s
find_first alg sigs s f =
    ap (find_alg alg) f.place
    ∙ find_skip alg f.before (s ∷ f.after) f.none_before
    ∙ ground (arith, sig_alg_eq.same_iff s.alg alg, f.same_alg)

find_none : (alg : SigAlg) (sigs : List BundleSignature) → Lacks alg sigs → find_alg alg sigs ≡ none
find_none alg [] h = refl
find_none alg (t ∷ sigs) h = ground (arith, find_none alg sigs h.1, sig_alg_eq.same_iff t.alg alg)

module _ (bytes : List ℕ) (sigs : List BundleSignature) (verify_one : BundleSignature → Bool) where
  -- A bundle is accepted exactly when its first Ed25519 signature and its first ML-DSA-65 signature
  -- are both there and both pass the verifier.
  pub verify_bundle_iff : (verify_bundle bytes sigs verify_one ≡ ok tt) ↔ (
      ((c : BundleSignature) × IsFirst ed25519 sigs c × (verify_one c ≡ true))
      × ((p : BundleSignature) × IsFirst ml_dsa65 sigs p × (verify_one p ≡ true)))
  unfolding verify_bundle
  verify_bundle_iff = (
    λ h. elim (Option-cases (find_alg ed25519 sigs)) [
      | inl n ↦ absurd (ground arith)
      | inr (c, e) ↦ elim (Option-cases (find_alg ml_dsa65 sigs)) [
        | inl n ↦ absurd (ground arith)
        | inr (p, e') ↦ (
          (c, find_IsFirst ed25519 sigs c e, ground arith),
          (p, find_IsFirst ml_dsa65 sigs p e', ground arith),
        )
      ]
    ],
    λ h. ground (
      arith,
      find_first ed25519 sigs h.0.0 h.0.1,
      find_first ml_dsa65 sigs h.1.0 h.1.1,
      h.0.2,
      h.1.2,
    ),
  )

  -- Without an Ed25519 signature that is what is reported; with one and no ML-DSA-65 signature,
  -- that. A signature that fails is reported for the first one of its algorithm, Ed25519 before
  -- ML-DSA-65, even if a later signature of the algorithm would pass.
  pub verify_bundle_errors :
      (Lacks ed25519 sigs → verify_bundle bytes sigs verify_one ≡ err (missing_algorithm ed25519))
      × ((c : BundleSignature)
          → IsFirst ed25519 sigs c
          → ((Lacks ml_dsa65 sigs
                → verify_bundle bytes sigs verify_one ≡ err (missing_algorithm ml_dsa65))
              × ((p : BundleSignature)
                  → IsFirst ml_dsa65 sigs p
                  → ((verify_one c ≡ false
                        → verify_bundle bytes sigs verify_one ≡ err (bad_signature ed25519))
                      × (verify_one c ≡ true
                          → verify_one p ≡ false
                          → verify_bundle bytes sigs verify_one ≡ err (bad_signature ml_dsa65))))))
  unfolding verify_bundle
  verify_bundle_errors = (
    λ h. ground (arith, find_none ed25519 sigs h),
    λ c fc. (
      λ h. ground (arith, find_first ed25519 sigs c fc, find_none ml_dsa65 sigs h),
      λ p fp. (
        λ bad. ground (arith, find_first ed25519 sigs c fc, find_first ml_dsa65 sigs p fp),
        λ good bad. ground (arith, find_first ed25519 sigs c fc, find_first ml_dsa65 sigs p fp),
      ),
    ),
  )
