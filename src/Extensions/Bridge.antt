-- ===== src/Extensions/Bridge.antt =====
-- extensions/policy-bridge/src/lib.rs: whether an extension may install, by the resolved policy.
use b_browser.Prelude.Eq.{◌==◌}
use b_browser.Prelude.{
  text_eq, Bool, Option, Str, any, chars, false, if◌then◌else◌, nat_same, none, some, ◌++◌,
}
use b_browser.Prelude.Text.{split}
use b_browser.Prelude.Words.{trim}
use b_browser.Policy.Precedence.{ResolvedValue, Resolver, name, resolve}
use b_browser.Extensions.Mv4.{Mv4Manifest}

abbrev pub key_install_mode : Str
key_install_mode = chars "extensions.install_mode"

abbrev pub key_allowlist : Str
key_allowlist = chars "extensions.allowlist"

abbrev pub key_blocklist : Str
key_blocklist = chars "extensions.blocklist"

pub data InstallDecision : Type 0 where
  allow : (source : Str) → InstallDecision
  deny : (reason : Str) → InstallDecision
  needs_admin_approval : (reason : Str) → InstallDecision

-- An entry of the comma-separated value, trimmed, is the id.
abbrev pub names_id : Str → Option ResolvedValue → Bool
names_id id none = false
names_id id (some rv) = any (λ e. trim e == id) (split (λ c. nat_same c 44) rv.effective)

unfoldable pub list_contains : Resolver → Str → Str → Bool
unfolding resolve
list_contains resolver key id = names_id id (resolve resolver key)

abbrev pub decide_mode : Bool → Str → Option ResolvedValue → InstallDecision
decide_mode listed id none = deny (chars "no install policy configured (default-deny)")
decide_mode listed id (some rv) =
    if rv.effective == chars "allow_all"
    then allow (name rv.source)
    else if rv.effective == chars "allowlist"
    then if listed then allow (name rv.source) else deny (id ++ chars " not on the admin allowlist")
    else if rv.effective == chars "block_all"
    then deny (chars "admin policy blocks all extension installs")
    else deny (chars "no install policy configured (default-deny)")

unfoldable pub evaluate : Resolver → Str → Mv4Manifest → InstallDecision
unfolding list_contains
evaluate resolver extension_id manifest =
    if list_contains resolver key_blocklist extension_id
    then deny (extension_id ++ chars " is on the admin blocklist")
    else if manifest.blocking_web_request_requires_admin_approval
    then needs_admin_approval (chars "extension requests blocking webRequest")
    else decide_mode (list_contains resolver key_allowlist extension_id) extension_id
        (resolve resolver key_install_mode)
