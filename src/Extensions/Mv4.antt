-- ===== src/Extensions/Mv4.antt =====
-- extensions/mv4-host/src/lib.rs: the translation of a manifest to version 4.
use b_browser.Prelude.Eq.{of_discrete, ◌==◌, PartialEq}
use b_browser.Prelude.{
  text_eq, Bool, List, Str, [], chars, if◌then◌else◌, is_empty, not, ◌&&◌, ◌++◌, ◌∷◌,
}

pub data ManifestVersion : Type 0 where
  v2 v3 v4 : ManifestVersion

unfoldable pub ManifestVersion-discrete : Discrete ManifestVersion
ManifestVersion-discrete = hlevel

instance abbrev pub version_eq : PartialEq ManifestVersion
version_eq = of_discrete ManifestVersion-discrete

pub record IncomingManifest : Type 0 where
  pub version : ManifestVersion
  pub name : Str
  pub permissions : List Str
  pub host_permissions : List Str
  pub wants_blocking_web_request : Bool

pub record Mv4Manifest : Type 0 where
  pub name : Str
  pub permissions : List Str
  pub host_capability_origins : List Str
  pub blocking_web_request_requires_admin_approval : Bool

pub record MigrationWarning : Type 0 where
  pub text : Str

abbrev pub background_warning : Str
background_warning = chars "MV2 background pages are translated to MV4 service workers"

abbrev pub blocking_warning : Str
blocking_warning = chars "blocking webRequest requires explicit admin approval under MV4"

abbrev pub host_warning : Str
host_warning =
    chars
      "host_permissions converted to expiring, origin-bound capability tokens; consider adding an expiry"

abbrev pub push_if : Bool → Str → List MigrationWarning → List MigrationWarning
push_if b warning warnings = if b then warnings ++ record { text = warning } ∷ [] else warnings

unfoldable pub to_mv4 : IncomingManifest → Mv4Manifest × List MigrationWarning
to_mv4 m =
    let blocking = m.wants_blocking_web_request in
    let background = push_if (m.version == v2) background_warning [] in
    let blocked = push_if blocking blocking_warning background in
    let warnings =
      push_if (not (is_empty m.host_permissions) && not (m.version == v4)) host_warning blocked in
    (
      record {
        name = m.name;
        permissions = m.permissions;
        host_capability_origins = m.host_permissions;
        blocking_web_request_requires_admin_approval = blocking;
      },
      warnings,
    )

unfoldable pub is_default_deny : Str → Bool
is_default_deny permission = not (permission == chars "did.verify")
