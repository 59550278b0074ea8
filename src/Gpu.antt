-- ===== src/Gpu.antt =====
-- engine/gpu: the batching of the compositor, the capture requests and the estimation of energy.
pub mod Compositor
pub mod Batches
pub mod Capture
pub mod Energy
pub mod Estimates
pub mod Monotone
mod Tests
