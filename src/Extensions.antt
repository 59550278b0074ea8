-- ===== src/Extensions.antt =====
-- extensions/mv4-host, mv3-host, mv2-shim and policy-bridge: manifests, and the decision to install one.
pub mod Mv4
pub mod Mv2
pub mod Mv3
pub mod Migration
pub mod Legacy
pub mod Journey
pub mod Bridge
pub mod Installs
pub mod Layered
mod Tests
