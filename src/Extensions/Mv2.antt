-- ===== src/Extensions/Mv2.antt =====
-- extensions/mv2-shim/src/lib.rs: a legacy document, sorted into the parts of a manifest.
use b_browser.Prelude.Eq.{◌==◌}
use b_browser.Prelude.{
  text_eq, Bool, List, Str, [], chars, false, if◌then◌else◌, true, ◌++◌, ◌||◌, ◌∷◌,
}
use b_browser.Prelude.Text.{starts_with}
use b_browser.Extensions.Mv4.{v2, IncomingManifest}

pub record Mv2Document : Type 0 where
  pub name : Str
  pub permissions : List Str
  pub background_persistent : Bool

unfoldable pub is_host_pattern : Str → Bool
is_host_pattern p =
    starts_with p (chars "http://")
    || starts_with p (chars "https://")
    || starts_with p (chars "*://")
    || p == chars "<all_urls>"

unfoldable pub web_request_blocking : Str
web_request_blocking = chars "webRequestBlocking"

-- The variables of the loop: the permissions, the host permissions and the flag.
pub record Sorted : Type 0 where
  pub permissions : List Str
  pub host_permissions : List Str
  pub wants_blocking_web_request : Bool

unfoldable pub sort_permission : Sorted → Str → Sorted
sort_permission s p =
    if is_host_pattern p
    then record s { host_permissions = s.host_permissions ++ p ∷ [] }
    else if p == web_request_blocking
    then record s { wants_blocking_web_request = true }
    else record s { permissions = s.permissions ++ p ∷ [] }

unfoldable pub sort_from : Sorted → List Str → Sorted
unfolding sort_permission
sort_from s [] = s
sort_from s (p ∷ ps) = sort_from (sort_permission s p) ps

unfoldable pub parse : Mv2Document → IncomingManifest
unfolding sort_from
parse doc =
    let sorted =
      sort_from
        (record { permissions = []; host_permissions = []; wants_blocking_web_request = false })
        doc.permissions in
    record {
      version = v2;
      name = doc.name;
      permissions = sorted.permissions;
      host_permissions = sorted.host_permissions;
      wants_blocking_web_request = sorted.wants_blocking_web_request;
    }
