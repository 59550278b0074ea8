-- ===== src/Policy.antt =====
-- admin/policy-engine: the configuration plane, one module for each file of its src/.
pub mod Precedence
pub mod Audit
pub mod Signing
pub mod Provenance
pub mod Cli
