-- ===== src/Integration.antt =====
-- tests/integration/tests/capability_and_policy.rs: the assertions of its tests, at second 100.
use b_browser.Prelude.{Str, List, [], ◌∷◌, chars, ok, err, some, refl, true, false, ◌≡◌, text_eq}
use b_browser.Prelude.Assoc.{lookup, insert}
use b_browser.Ipc.{
  Authority, network_fetch, storage_read, storage_write, agent_actuate, Authority-discrete,
  Capability, origin_mismatch, unauthorized, amplification, Broker, mint, verify, attenuate,
}
use b_browser.Ipc
use b_browser.Policy.Precedence.{Resolver, default, user, enterprise, Layer-discrete, set, resolve}
use b_browser.Policy.Precedence
use b_browser.Extensions.Mv4.{Mv4Manifest}
use b_browser.Extensions.Bridge.{key_install_mode, key_allowlist, allow, deny, evaluate}
use b_browser.Redaction.{default_config, redact}

abbrev app : Str
app = chars "https://app.example"

abbrev minted : List Authority → Capability × Broker
minted asked = mint Ipc.new 100 app asked 60

grants_requested :
    verify (minted (network_fetch ∷ [])).1 100 (minted (network_fetch ∷ [])).0 app network_fetch
    ≡ ok tt
unfolding mint Ipc.new verify lookup insert Authority-discrete
grants_requested = refl

rejects_origin :
    verify
      (minted (network_fetch ∷ [])).1
      100
      (minted (network_fetch ∷ [])).0
      (chars "https://evil.example")
      network_fetch
    ≡ err origin_mismatch
unfolding mint Ipc.new verify lookup insert Authority-discrete
rejects_origin = refl

rejects_authority :
    verify (minted (network_fetch ∷ [])).1 100 (minted (network_fetch ∷ [])).0 app storage_write
    ≡ err unauthorized
unfolding mint Ipc.new verify lookup insert Authority-discrete
rejects_authority = refl

abbrev pair : Capability
pair = (minted (network_fetch ∷ storage_read ∷ [])).0

attenuates :
    attenuate pair (storage_read ∷ []) 1
    ≡ ok (record { id = 1; origin = app; authorities = storage_read ∷ []; expires_at = 1 })
unfolding mint Ipc.new attenuate Authority-discrete
attenuates = refl

cannot_amplify : attenuate pair (agent_actuate ∷ []) 1 ≡ err amplification
unfolding mint Ipc.new attenuate Authority-discrete
cannot_amplify = refl

abbrev https_mode : Str
https_mode = chars "network.https_mode"

enterprise_wins :
    resolve
      (set
        (set
          (set Precedence.new https_mode default (chars "https_first") false)
          https_mode
          user
          (chars "https_first")
          false)
        https_mode
        enterprise
        (chars "https_only")
        true)
      https_mode
    ≡ some (record {
      key = https_mode;
      effective = chars "https_only";
      source = enterprise;
      locked = true;
      trace =
          record { layer = default; value = chars "https_first"; locked = false }
          ∷ record { layer = user; value = chars "https_first"; locked = false }
          ∷ record { layer = enterprise; value = chars "https_only"; locked = true }
          ∷ [];
    })
unfolding resolve set Precedence.new lookup insert Layer-discrete
enterprise_wins = refl

abbrev helper : Mv4Manifest
helper = record {
  name = chars "Helper";
  permissions = chars "storage" ∷ [];
  host_capability_origins = [];
  blocking_web_request_requires_admin_approval = false;
}

denies_by_default :
    evaluate Precedence.new (chars "helper") helper
    ≡ deny (chars "no install policy configured (default-deny)")
unfolding evaluate resolve Precedence.new lookup
denies_by_default = refl

allows_listed :
    evaluate
      (set
        (set Precedence.new key_install_mode enterprise (chars "allowlist") true)
        key_allowlist
        enterprise
        (chars "helper")
        true)
      (chars "helper")
      helper
    ≡ allow (chars "enterprise")
unfolding evaluate resolve set Precedence.new lookup insert Layer-discrete Precedence.name
allows_listed = refl

redacts :
    (redact
      (chars "contact me at jane.doe@example.com or card 4111111111111111 today")
      default_config).text
    ≡ chars "contact me at [REDACTED_EMAIL] or card [REDACTED_CARD] today"
unfolding redact default_config
redacts = refl
