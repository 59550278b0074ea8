-- ===== src/Rendering.antt =====
-- engine/blink-integration, apart from site isolation, and the bindings of the JavaScript engines:
-- the choice of an engine, enclaves, the throttling of timers and the privacy budget.
pub mod Selector
pub mod Engines
pub mod Tee
pub mod Throttling
pub mod Policies
pub mod Fingerprint
pub mod Budgets
pub mod Seeds
mod Tests
