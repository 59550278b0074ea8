-- ===== src/Sync.antt =====
-- sync/: the end-to-end encrypted synchronisation, one module for each crate.
pub mod Server
pub mod E2ee
pub mod Client
