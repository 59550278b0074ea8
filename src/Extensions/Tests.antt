-- ===== src/Extensions/Tests.antt =====
-- The unit tests of mv4-host, mv3-host, mv2-shim and policy-bridge, and the theorems at concrete inputs.
use b_browser.Prelude.Eq.{◌==◌, contains}
use b_browser.Prelude.Assoc.{insert, lookup}
use b_browser.Prelude.{
  text_eq, ◌&&◌, not, Bool, List, Str, [], chars, false, refl, true, ◌↔◌, ◌∷◌, ◌≡◌, ◌≢◌, ◌⊎◌,
}
use b_browser.Policy.Precedence
use b_browser.Policy.Precedence.{
  Layer, user, Resolver, local_admin, enterprise, Layer-discrete, set,
}
use b_browser.Policy.Precedence.Resolution.{Setting, set_all}
use b_browser.Extensions.Layered.{SameEnterprise, evaluate-enterprise}
use b_browser.Extensions.Mv4.{
  ManifestVersion, v2, v3, v4, IncomingManifest, Mv4Manifest, to_mv4, is_default_deny,
}
use b_browser.Extensions.Mv2
use b_browser.Extensions.Mv2.{Mv2Document, is_host_pattern, web_request_blocking}
use b_browser.Extensions.Mv3
use b_browser.Extensions.Legacy.{to_mv4-parse}
use b_browser.Extensions.Migration.{to_mv4-blocking, to_mv4-silent}
use b_browser.Extensions.Bridge.{
  key_install_mode, key_allowlist, key_blocklist, allow, deny, needs_admin_approval, list_contains,
  evaluate,
}
use b_browser.Extensions.Installs.{Admits, evaluate_iff, evaluate_guards}

abbrev manifest : Bool → Mv4Manifest
manifest blocking = record {
  name = chars "Test";
  permissions = [];
  host_capability_origins = [];
  blocking_web_request_requires_admin_approval = blocking;
}

abbrev incoming : ManifestVersion → Bool → IncomingManifest
incoming version blocking = record {
  version = version;
  name = chars "Legacy Blocker";
  permissions = chars "storage" ∷ [];
  host_permissions = [];
  wants_blocking_web_request = blocking;
}

listing : Resolver
unfolding set Precedence.new lookup insert Layer-discrete
listing =
    set (set Precedence.new key_install_mode enterprise (chars "allowlist") true) key_allowlist
      enterprise (chars "good, also-good") true

blocking_one : Resolver
unfolding set Precedence.new lookup insert Layer-discrete
blocking_one =
    set (set Precedence.new key_install_mode local_admin (chars "allow_all") false) key_blocklist
      enterprise (chars "evil") true

default_is_deny :
    evaluate Precedence.new (chars "ext1") (manifest false)
    ≡ deny (chars "no install policy configured (default-deny)")
unfolding evaluate Precedence.new lookup
default_is_deny = refl

allowlist_gates :
    (evaluate listing (chars "also-good") (manifest false) ≡ allow (chars "enterprise"))
    × (evaluate listing (chars "bad") (manifest false)
        ≡ deny (chars "bad not on the admin allowlist"))
unfolding evaluate listing lookup Precedence.name
allowlist_gates = (refl, refl)

blocklist_overrides :
    evaluate blocking_one (chars "evil") (manifest false)
    ≡ deny (chars "evil is on the admin blocklist")
unfolding evaluate blocking_one lookup
blocklist_overrides = refl

did_verify_allowed : is_default_deny (chars "did.verify") ≡ false
unfolding is_default_deny
did_verify_allowed = refl

evaluate_iff_example :
    (evaluate listing (chars "good") (manifest false) ≡ allow (chars "enterprise")) ↔ (
      (list_contains listing key_blocklist (chars "good") ≡ false)
      × (false ≡ false)
      × Admits listing (chars "good") (chars "enterprise"))
evaluate_iff_example = evaluate_iff listing (chars "good") (manifest false) (chars "enterprise")

evaluate_guards_run :
    (list_contains blocking_one key_blocklist (chars "evil") ≡ true
      → evaluate blocking_one (chars "evil") (manifest true)
        ≡ deny (chars "evil is on the admin blocklist"))
    × (list_contains blocking_one key_blocklist (chars "evil") ≡ false
        → true ≡ true
        → evaluate blocking_one (chars "evil") (manifest true)
          ≡ needs_admin_approval (chars "extension requests blocking webRequest"))
evaluate_guards_run = evaluate_guards blocking_one (chars "evil") (manifest true)

to_mv4-blocking_run :
    evaluate listing (chars "good") (to_mv4 (incoming v2 true)).0 ≢ allow (chars "enterprise")
to_mv4-blocking_run =
    to_mv4-blocking listing (chars "good") (chars "enterprise") (incoming v2 true) refl

to_mv4-silent_run :
    ((to_mv4 (incoming v3 false)).1 ≡ [])
    ↔ ((false ≡ false) × ((v3 ≡ v4) ⊎ ((v3 ≡ v3) × (◌≡◌ {A = List Str} [] []))))
to_mv4-silent_run = to_mv4-silent (incoming v3 false)

abbrev legacy : Mv2Document
legacy = record {
  name = chars "Adblock Classic";
  permissions = chars "storage" ∷ chars "webRequestBlocking" ∷ chars "<all_urls>" ∷ [];
  background_persistent = true;
}

splits_host_patterns : Mv2.parse legacy ≡ record {
  version = v2;
  name = chars "Adblock Classic";
  permissions = chars "storage" ∷ [];
  host_permissions = chars "<all_urls>" ∷ [];
  wants_blocking_web_request = true;
}
unfolding Mv2.parse is_host_pattern web_request_blocking
splits_host_patterns = refl

modern_keeps_version :
    (Mv3.parse (record {
      name = chars "Modern Helper";
      permissions = [];
      host_permissions = [];
      force_installed_blocking = false;
    }))
    ≡ record {
      version = v3;
      name = chars "Modern Helper";
      permissions = [];
      host_permissions = [];
      wants_blocking_web_request = false;
    }
unfolding Mv3.parse
modern_keeps_version = refl

to_mv4-parse_run :
    (contains (to_mv4 (Mv2.parse legacy)).0.permissions (chars "storage") ≡ (
      contains legacy.permissions (chars "storage")
      && (not (is_host_pattern (chars "storage"))
          && not (chars "storage" == web_request_blocking))))
    × (contains (to_mv4 (Mv2.parse legacy)).0.host_capability_origins (chars "storage")
        ≡ (contains legacy.permissions (chars "storage") && is_host_pattern (chars "storage")))
    × ((to_mv4 (Mv2.parse legacy)).0.blocking_web_request_requires_admin_approval
        ≡ contains legacy.permissions web_request_blocking)
to_mv4-parse_run = to_mv4-parse legacy (chars "storage")

abbrev setting : Layer → Str → Str → Setting
setting layer key value = record { key = key; layer = layer; value = value; locked = false }

abbrev managed : List Setting
managed =
    setting enterprise key_blocklist (chars "evil")
    ∷ setting enterprise key_install_mode (chars "allowlist")
    ∷ setting enterprise key_allowlist (chars "good")
    ∷ []

-- The user sets everything again, before and after.
abbrev meddled : List Setting
meddled =
    setting user key_allowlist (chars "bad")
    ∷ setting enterprise key_allowlist (chars "good")
    ∷ setting enterprise key_install_mode (chars "allowlist")
    ∷ setting enterprise key_blocklist (chars "evil")
    ∷ setting user key_install_mode (chars "allow_all")
    ∷ []

same_settings :
    SameEnterprise key_blocklist managed meddled
    × SameEnterprise key_install_mode managed meddled
    × SameEnterprise key_allowlist managed meddled
unfolding Layer-discrete
same_settings = (
  record {
    value = record { layer = enterprise; value = chars "evil"; locked = false };
    first = refl;
    second = refl;
  },
  record {
    value = record { layer = enterprise; value = chars "allowlist"; locked = false };
    first = refl;
    second = refl;
  },
  record {
    value = record { layer = enterprise; value = chars "good"; locked = false };
    first = refl;
    second = refl;
  },
)

evaluate-enterprise_example :
    evaluate (set_all Precedence.new managed) (chars "bad") (manifest false)
    ≡ evaluate (set_all Precedence.new meddled) (chars "bad") (manifest false)
evaluate-enterprise_example =
    evaluate-enterprise managed meddled (chars "bad") (manifest false) same_settings.0
      same_settings.1 same_settings.2
