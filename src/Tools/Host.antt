-- ===== src/Tools/Host.antt =====
-- ui/shell-desktop/src-tauri/src/lib.rs: the one command of the desktop host. `version` is what Cargo
-- puts in `CARGO_PKG_VERSION`.
use b_browser.Prelude.{Bool, Str, chars, true}

pub record BuildInfo : Type 0 where
  pub name : Str
  pub version : Str
  pub default_deny : Bool

unfoldable pub build_info : Str → BuildInfo
build_info version = record { name = chars "Browser 2030B"; version = version; default_deny = true }
