-- ===== src/Policy/Precedence/Tests.antt =====
-- The unit tests of precedence.rs, and the theorems at concrete inputs.
use b_browser.Prelude.{
  ◌≡◌, refl, Bool, true, false, ◌&&◌, none, some, List, [], ◌∷◌, if◌then◌else◌, Str, chars, text_eq,
}
use b_browser.Prelude.Eq.{◌==◌}
use b_browser.Prelude.Assoc.{lookup, insert}
use b_browser.Policy.Precedence.{
  Layer, default, user, enterprise, Layer-discrete, layer_eq, LayerValue, ResolvedValue, Resolver,
  new, set, resolve,
}
use b_browser.Policy.Precedence.Trace
use b_browser.Policy.Precedence.Trace.{in_order, resolve-set_all-answer}
use b_browser.Policy.Precedence.Layers.{IsAscending, at_layer, highest}
use b_browser.Policy.Precedence.Resolution.{
  Setting, set_all, IsValid, value_at, latest, summary, set-IsValid, new-IsValid, set_all-IsValid,
  value_at-set, resolve-trace, resolve-set_all,
}

abbrev doh : Str
doh = chars "network.doh.provider"

abbrev setting : Layer → Str → Bool → Setting
setting l v locked = record { key = doh; layer = l; value = v; locked = locked }

-- Set out of order, the default twice.
abbrev calls : List Setting
calls =
    setting enterprise (chars "quad9") true
    ∷ setting default (chars "first") false
    ∷ setting user (chars "google") false
    ∷ setting default (chars "own") false
    ∷ []

resolver : Resolver
unfolding set_all set new lookup insert Layer-discrete
resolver = set_all new calls

abbrev quad9 : LayerValue
quad9 = record { layer = enterprise; value = chars "quad9"; locked = true }

abbrev answer : ResolvedValue
answer = record {
  key = doh;
  effective = chars "quad9";
  source = enterprise;
  locked = true;
  trace =
      record { layer = default; value = chars "own"; locked = false }
      ∷ record { layer = user; value = chars "google"; locked = false }
      ∷ quad9
      ∷ [];
}

enterprise_wins : resolve resolver doh ≡ some answer
unfolding resolver resolve
enterprise_wins = refl

unset_key : resolve resolver (chars "does.not.exist") ≡ none
unfolding resolver resolve
unset_key = refl

resolver-IsValid : IsValid resolver
unfolding resolver
resolver-IsValid = set_all-IsValid new calls new-IsValid

set-IsValid_run : IsValid (set new doh user (chars "google") false)
set-IsValid_run = set-IsValid new doh user (chars "google") false new-IsValid

value_at-set_run : value_at (set new doh user (chars "google") false) doh enterprise ≡ (
    if doh == doh && user == enterprise
    then some (record { layer = user; value = chars "google"; locked = false })
    else value_at new doh enterprise)
value_at-set_run = value_at-set new doh doh user enterprise (chars "google") false

resolve-trace_run :
    (doh ≡ doh)
    × IsAscending answer.trace
    × ((l : Layer) → at_layer l answer.trace ≡ value_at resolver doh l)
resolve-trace_run = resolve-trace resolver doh resolver-IsValid enterprise_wins

resolve-set_all_run : summary (resolve (set_all new calls) doh) ≡ highest (λ l. latest doh l calls)
resolve-set_all_run = resolve-set_all calls doh

resolve-set_all-answer_example :
    resolve (set_all new calls) doh ≡ Trace.answer doh (in_order (λ l. latest doh l calls))
resolve-set_all-answer_example = resolve-set_all-answer calls doh
