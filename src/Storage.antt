-- ===== src/Storage.antt =====
-- engine/storage: profiles, the memory saver, the settings of a site and the history index.
pub mod Profiles
pub mod MemorySaver
pub mod Lifecycle
pub mod SiteSettings
pub mod Permissions
pub mod History
mod Tests
