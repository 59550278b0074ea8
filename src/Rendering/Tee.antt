-- ===== src/Rendering/Tee.antt =====
-- engine/blink-integration/src/tee.rs: which attested enclaves are trusted.
use b_browser.Prelude.Eq.{◌==◌}
use b_browser.Prelude.{text_eq, Bool, List, any, ℕ, ◌&&◌}

pub data TeeKind : Type 0 where
  intel_tdx amd_sev_snp arm_cca : TeeKind

pub record Attestation : Type 0 where
  pub kind : TeeKind
  pub measurement : List ℕ
  pub signature_valid : Bool

unfoldable pub is_trusted : Attestation → List (List ℕ) → Bool
is_trusted att allowed_measurements =
    att.signature_valid && any (λ m. m == att.measurement) allowed_measurements
