-- ===== src/Isolation.antt =====
-- Process isolation in engine/blink-integration and engine/gecko-integration.
pub mod Allocation
pub mod Hosts
pub mod Blink
pub mod Gecko
pub mod Ranges
pub mod Processes
pub mod Overlap
pub mod Confusion
pub mod Derivation
pub mod Agreement
mod Tests
