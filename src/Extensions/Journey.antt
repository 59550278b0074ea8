-- ===== src/Extensions/Journey.antt =====
-- A document's way to an installation: its shim, the translation, and the bridge over a
-- resolver with any history of settings.
mod Tests
use b_browser.Prelude.Eq.{◌==◌, contains}
use b_browser.Prelude.{
  [], any, ap, arith, Bool, Bool-cases, chars, false, inl, inr, List, nat_same, none, Option,
  Option-cases, refl, some, Str, sym, text_eq, true, ◌↔◌, ◌∙◌, ◌≡◌, ◌⊎◌,
}
use b_browser.Prelude.Text.{split}
use b_browser.Prelude.Words.{trim}
use b_browser.Policy.Precedence.{LayerValue, ResolvedValue, new, name, resolve}
use b_browser.Policy.Precedence.Layers.{highest}
use b_browser.Policy.Precedence.Resolution.{Setting, set_all, latest, summary, resolve-set_all}
use b_browser.Extensions.Mv4.{IncomingManifest, Mv4Manifest, to_mv4}
use b_browser.Extensions.Mv3
use b_browser.Extensions.Mv3.{Mv3Document}
use b_browser.Extensions.Mv2
use b_browser.Extensions.Mv2.{Mv2Document, web_request_blocking}
use b_browser.Extensions.Bridge.{
  key_install_mode, key_allowlist, key_blocklist, allow, names_id, list_contains, evaluate,
}
use b_browser.Extensions.Installs.{Admits, evaluate_iff}
use b_browser.Extensions.Legacy.{to_mv4-parse}

-- A document that one of the two shims parses.
pub data Document : Type 0 where
  legacy : Mv2Document → Document
  modern : Mv3Document → Document

abbrev pub incoming : Document → IncomingManifest
incoming (legacy doc) = Mv2.parse doc
incoming (modern doc) = Mv3.parse doc

-- The document asks to block requests.
abbrev pub asks_to_block : Document → Bool
asks_to_block (legacy doc) = contains doc.permissions web_request_blocking
asks_to_block (modern doc) = doc.force_installed_blocking

-- The last value at the highest layer at which the key was set.
abbrev pub effective : List Setting → Str → Option LayerValue
effective ss key = highest (λ l. latest key l ss)

-- The comma-separated value has the id as an entry.
abbrev pub has_entry : Str → Option LayerValue → Bool
has_entry id none = false
has_entry id (some lv) = any (λ e. trim e == id) (split (λ c. nat_same c 44) lv.value)

-- The install mode in effect lets the extension in, in the name of the mode's layer.
pub record LetsIn (ss : List Setting) (id source : Str) : Type 0 where
  pub mode : LayerValue
  pub in_effect : effective ss key_install_mode ≡ some mode
  pub named : source ≡ name mode.layer
  pub admitted :
      (mode.value ≡ chars "allow_all")
      ⊎ ((mode.value ≡ chars "allowlist") × (has_entry id (effective ss key_allowlist) ≡ true))

has_entry-summary : (id : Str) (o : Option ResolvedValue) → names_id id o ≡ has_entry id (summary o)
has_entry-summary id none = refl
has_entry-summary id (some rv) = refl

module _ (ss : List Setting) (id : Str) where
  listed-effective :
      (key : Str) → list_contains (set_all new ss) key id ≡ has_entry id (effective ss key)
  unfolding list_contains
  listed-effective key =
      has_entry-summary id (resolve (set_all new ss) key)
      ∙ ap (has_entry id) (resolve-set_all ss key)

  LetsIn-Admits : (source : Str) → Admits (set_all new ss) id source → LetsIn ss id source
  LetsIn-Admits source a = record {
    mode = record { layer = a.mode.source; value = a.mode.effective; locked = a.mode.locked };
    in_effect = sym (resolve-set_all ss key_install_mode) ∙ ap summary a.resolved;
    named = a.named;
    admitted = ground (arith, a.admitted, listed-effective key_allowlist);
  }

  Admits-LetsIn : (source : Str) → LetsIn ss id source → Admits (set_all new ss) id source
  Admits-LetsIn source l = elim (Option-cases (resolve (set_all new ss) key_install_mode)) [
    | inl e ↦ absurd (ground (arith, resolve-set_all ss key_install_mode, l.in_effect))
    | inr (rv, e) ↦
        let same : summary (some rv) ≡ some l.mode =
          sym (ap summary e) ∙ resolve-set_all ss key_install_mode ∙ l.in_effect in
        record {
          mode = rv;
          resolved = e;
          named = ground (arith, l.named, same);
          admitted = ground (arith, l.admitted, same, listed-effective key_allowlist);
        }
  ]

  -- Any manifest after any settings.
  evaluate-set_all :
      (source : Str) (m : Mv4Manifest)
      → (evaluate (set_all new ss) id m ≡ allow source) ↔ (
          (has_entry id (effective ss key_blocklist) ≡ false)
          × (m.blocking_web_request_requires_admin_approval ≡ false)
          × LetsIn ss id source)
  evaluate-set_all source m =
      let gate = evaluate_iff (set_all new ss) id m source in
      (
        λ e.
            let (b, w, a) = gate.0 e in
            (sym (listed-effective key_blocklist) ∙ b, w, LetsIn-Admits source a),
        λ (b, w, l). gate.1 (listed-effective key_blocklist ∙ b, w, Admits-LetsIn source l),
      )

  asks-parse :
      (doc : Document)
      → (to_mv4 (incoming doc)).0.blocking_web_request_requires_admin_approval ≡ asks_to_block doc
  unfolding to_mv4 Mv3.parse
  asks-parse (legacy doc) = (to_mv4-parse doc []).2
  asks-parse (modern doc) = refl

  -- A document of version 2 or 3 installs exactly when, after whatever settings, the blocklist in
  -- effect does not have its id, it does not ask to block requests, and the install mode in effect
  -- is `allow_all`, or `allowlist` with the id on the allowlist in effect; the layer that is named
  -- is that of the mode. In effect is the last value at the highest layer that was set. A document
  -- of version 2 asks by the permission `webRequestBlocking`, one of version 3 by its flag alone,
  -- whatever its permissions.
  pub evaluate-parse :
      (source : Str) (doc : Document)
      → (evaluate (set_all new ss) id (to_mv4 (incoming doc)).0 ≡ allow source) ↔ (
          (has_entry id (effective ss key_blocklist) ≡ false)
          × (asks_to_block doc ≡ false)
          × LetsIn ss id source)
  evaluate-parse source doc =
      rw (sym (asks-parse doc)) (evaluate-set_all source (to_mv4 (incoming doc)).0)
