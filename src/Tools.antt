-- ===== src/Tools.antt =====
-- tools/ and the Rust of ui/shell-desktop/src-tauri: programs around the browser.
pub mod Host
pub mod Simulator
pub mod Fuzz
pub mod FuzzTargets
pub mod Icon
pub mod IconBuild
mod Tests
use b_browser.Prelude.{}
