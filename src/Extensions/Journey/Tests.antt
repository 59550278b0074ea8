-- ===== src/Extensions/Journey/Tests.antt =====
-- A legacy document under an enterprise allowlist, and the theorem on it.
use b_browser.Prelude.Eq.{contains}
use b_browser.Prelude.{inr, text_eq, List, [], ◌∷◌, chars, false, refl, some, Str, ◌↔◌, ◌≡◌}
use b_browser.Policy.Precedence
use b_browser.Policy.Precedence.{Layer, name, user, enterprise, Layer-discrete}
use b_browser.Policy.Precedence.Resolution.{Setting, set_all}
use b_browser.Extensions.Mv4.{to_mv4}
use b_browser.Extensions.Mv2
use b_browser.Extensions.Mv3
use b_browser.Extensions.Mv3.{Mv3Document}
use b_browser.Extensions.Mv2.{Mv2Document, web_request_blocking}
use b_browser.Extensions.Bridge.{key_install_mode, key_allowlist, key_blocklist, allow, evaluate}
use b_browser.Extensions.Journey.{effective, has_entry, LetsIn, legacy, modern, evaluate-parse}

abbrev helper : Mv2Document
helper = record {
  name = chars "Helper";
  permissions = chars "storage" ∷ chars "https://*.example/*" ∷ [];
  background_persistent = false;
}

abbrev setting : Layer → Str → Str → Setting
setting layer key value = record { key = key; layer = layer; value = value; locked = false }

abbrev settings : List Setting
settings =
    setting enterprise key_allowlist (chars "good, helper")
    ∷ setting enterprise key_install_mode (chars "allowlist")
    ∷ setting user key_install_mode (chars "block_all")
    ∷ []

mode_in_effect :
    effective settings key_install_mode
    ≡ some (record { layer = enterprise; value = chars "allowlist"; locked = false })
unfolding Layer-discrete
mode_in_effect = refl

evaluate-parse_example :
    (evaluate (set_all Precedence.new settings) (chars "helper") (to_mv4 (Mv2.parse helper)).0
      ≡ allow (chars "enterprise"))
    ↔ ((has_entry (chars "helper") (effective settings key_blocklist) ≡ false)
        × (contains helper.permissions web_request_blocking ≡ false)
        × LetsIn settings (chars "helper") (chars "enterprise"))
evaluate-parse_example =
    evaluate-parse settings (chars "helper") (chars "enterprise") (legacy helper)

-- The permission on which the shim of version 2 asks for an approval.
abbrev blocker : Mv3Document
blocker = record {
  name = chars "Blocker";
  permissions = chars "webRequestBlocking" ∷ [];
  host_permissions = [];
  force_installed_blocking = false;
}

-- In a document of version 3 it is granted without one.
blocker_installs :
    evaluate (set_all Precedence.new settings) (chars "helper") (to_mv4 (Mv3.parse blocker)).0
    ≡ allow (chars "enterprise")
blocker_installs =
    (evaluate-parse settings (chars "helper") (chars "enterprise") (modern blocker)).1 (
      unfold Layer-discrete in refl,
      refl,
      record {
        mode = record { layer = enterprise; value = chars "allowlist"; locked = false };
        in_effect = mode_in_effect;
        named = unfold name in refl;
        admitted = inr (refl, unfold Layer-discrete in refl);
      },
    )

blocker_permissions : (to_mv4 (Mv3.parse blocker)).0.permissions ≡ chars "webRequestBlocking" ∷ []
unfolding to_mv4 Mv3.parse
blocker_permissions = refl
