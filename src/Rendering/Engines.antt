-- ===== src/Rendering/Engines.antt =====
-- engine/spidermonkey-bindings/src/lib.rs and engine/v8-bindings/src/lib.rs: which JavaScript engine
-- runs an origin, and the policy of a V8 realm.
use b_browser.Prelude.Eq.{contains}
use b_browser.Prelude.{text_eq, Bool, List, Str, false, if◌then◌else◌, not, true}

pub data JsEngine : Type 0 where
  v8 spider_monkey : JsEngine

unfoldable pub select_engine : Str → List Str → JsEngine
select_engine origin spidermonkey_origins =
    if contains spidermonkey_origins origin then spider_monkey else v8

pub record JsPolicy : Type 0 where
  pub v8_sandbox : Bool
  pub jitless : Bool

-- `JsPolicy::default()`
unfoldable pub default_js_policy : JsPolicy
default_js_policy = record { v8_sandbox = true; jitless = false }

pub record JsRealm : Type 0 where
  pub origin : Str
  pub policy : JsPolicy

unfoldable pub new : Str → JsPolicy → JsRealm
new origin policy = record { origin = origin; policy = policy }

unfoldable pub jit_enabled : JsRealm → Bool
jit_enabled realm = not realm.policy.jitless
