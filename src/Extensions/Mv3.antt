-- ===== src/Extensions/Mv3.antt =====
-- extensions/mv3-host/src/lib.rs: a document of version 3.
use b_browser.Prelude.{Bool, List, Str}
use b_browser.Extensions.Mv4.{v3, IncomingManifest}

pub record Mv3Document : Type 0 where
  pub name : Str
  pub permissions : List Str
  pub host_permissions : List Str
  pub force_installed_blocking : Bool

unfoldable pub parse : Mv3Document → IncomingManifest
parse doc = record {
  version = v3;
  name = doc.name;
  permissions = doc.permissions;
  host_permissions = doc.host_permissions;
  wants_blocking_web_request = doc.force_installed_blocking;
}
