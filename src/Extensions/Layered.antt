-- ===== src/Extensions/Layered.antt =====
-- The bridge over a resolver whose enterprise layer is set.
use b_browser.Prelude.{Bool, List, Option, Str, [], ap, none, refl, some, sym, ◌∙◌, ◌≡◌}
use b_browser.Policy.Precedence.{
  Layer, enterprise, LayerValue, ResolvedValue, Resolver, new, resolve,
}
use b_browser.Policy.Precedence.Layers.{highest}
use b_browser.Policy.Precedence.Resolution.{Setting, set_all, latest, summary, resolve-set_all}
use b_browser.Extensions.Mv4.{Mv4Manifest}
use b_browser.Extensions.Bridge.{
  key_install_mode, key_allowlist, key_blocklist, names_id, list_contains, decide_mode, evaluate,
}

-- The resolved value as far as the bridge reads it.
abbrev restored : Option LayerValue → Option ResolvedValue
restored none = none
restored (some lv) =
    some
      (record { key = []; effective = lv.value; source = lv.layer; locked = lv.locked; trace = [] })

names_id-summary :
    (id : Str) (o : Option ResolvedValue) → names_id id o ≡ names_id id (restored (summary o))
names_id-summary id none = refl
names_id-summary id (some rv) = refl

decide_mode-summary :
    (listed : Bool) (id : Str) (o : Option ResolvedValue)
    → decide_mode listed id o ≡ decide_mode listed id (restored (summary o))
decide_mode-summary listed id none = refl
decide_mode-summary listed id (some rv) = refl

-- The two resolvers agree on the value, the layer and the lock of a key.
abbrev pub Agree : Resolver → Resolver → Str → Type 0
Agree r r' key = summary (resolve r key) ≡ summary (resolve r' key)

list_contains-Agree :
    (r r' : Resolver) (key id : Str)
    → Agree r r' key
    → list_contains r key id ≡ list_contains r' key id
unfolding list_contains
list_contains-Agree r r' key id h =
    names_id-summary id (resolve r key)
    ∙ ap (λ o. names_id id (restored o)) h
    ∙ sym (names_id-summary id (resolve r' key))

decide_mode-Agree :
    (r r' : Resolver) (listed : Bool) (id : Str)
    → Agree r r' key_install_mode
    → decide_mode listed id (resolve r key_install_mode)
      ≡ decide_mode listed id (resolve r' key_install_mode)
decide_mode-Agree r r' listed id h =
    decide_mode-summary listed id (resolve r key_install_mode)
    ∙ ap (λ o. decide_mode listed id (restored o)) h
    ∙ sym (decide_mode-summary listed id (resolve r' key_install_mode))

evaluate-Agree :
    (r r' : Resolver) (id : Str) (manifest : Mv4Manifest)
    → Agree r r' key_blocklist
    → Agree r r' key_install_mode
    → Agree r r' key_allowlist
    → evaluate r id manifest ≡ evaluate r' id manifest
unfolding evaluate
evaluate-Agree r r' id manifest b i a =
    rw
      (
        list_contains-Agree r r' key_blocklist id b,
        list_contains-Agree r r' key_allowlist id a,
        decide_mode-Agree r r' (list_contains r' key_allowlist id) id i,
      )
      refl

-- The enterprise layer has set the key in both histories, last to the same value.
pub record SameEnterprise (key : Str) (ss other : List Setting) : Type 0 where
  pub value : LayerValue
  pub first : latest key enterprise ss ≡ some value
  pub second : latest key enterprise other ≡ some value

highest-enterprise :
    (at : Layer → Option LayerValue) (v : LayerValue) → at enterprise ≡ some v → highest at ≡ some v
highest-enterprise at v e = rw e refl

Agree-SameEnterprise :
    (key : Str) (ss other : List Setting)
    → SameEnterprise key ss other
    → Agree (set_all new ss) (set_all new other) key
Agree-SameEnterprise key ss other s =
    resolve-set_all ss key
    ∙ highest-enterprise (λ l. latest key l ss) s.value s.first
    ∙ sym (highest-enterprise (λ l. latest key l other) s.value s.second)
    ∙ sym (resolve-set_all other key)

-- Where the enterprise layer has set the blocklist, the install mode and the allowlist, the decision
-- on any extension depends on its last values there alone: whatever the user, the local admin and
-- the defaults set, before or after, changes nothing.
pub evaluate-enterprise :
    (ss other : List Setting) (id : Str) (manifest : Mv4Manifest)
    → SameEnterprise key_blocklist ss other
    → SameEnterprise key_install_mode ss other
    → SameEnterprise key_allowlist ss other
    → evaluate (set_all new ss) id manifest ≡ evaluate (set_all new other) id manifest
evaluate-enterprise ss other id manifest b i a =
    evaluate-Agree (set_all new ss) (set_all new other) id manifest
      (Agree-SameEnterprise key_blocklist ss other b)
      (Agree-SameEnterprise key_install_mode ss other i)
      (Agree-SameEnterprise key_allowlist ss other a)
