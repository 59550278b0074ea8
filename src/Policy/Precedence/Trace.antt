-- ===== src/Policy/Precedence/Trace.antt =====
-- The whole answer of `Resolver::resolve`, its trace included.
use b_browser.Prelude.{
  ◌≤◌, ◌≡◌, refl, Option, none, some, List, [], ◌∷◌, arith, last, if◌then◌else◌, Str, ap, text_eq,
  ◌∙◌, sym,
}
use mathlib.Core.Path.{fun_ext}
use b_browser.Prelude.Eq.{◌==◌}
use b_browser.Prelude.Assoc.{lookup}
use b_browser.Policy.Precedence.{
  Layer, Layer-discrete, default, user, local_admin, enterprise, layer_eq, rank, LayerValue,
  ResolvedValue, Resolver, new, resolve, resolve_trace, or_default,
}
use b_browser.Policy.Precedence.Layers.{at_layer, IsAscending, at_layer-Above}
use b_browser.Policy.Precedence.Resolution.{
  value_at, IsValid, Setting, set_all, set_all-IsValid, new-IsValid, latest, value_at-set_all-new,
}

abbrev if_set : Option LayerValue → List LayerValue → List LayerValue
if_set none xs = xs
if_set (some x) xs = x ∷ xs

-- The values of the layers that are set, by ascending layer.
abbrev pub in_order : (Layer → Option LayerValue) → List LayerValue
in_order at =
    if_set (at default) (if_set (at user) (if_set (at local_admin) (if_set (at enterprise) [])))

-- A value at a layer below all the others comes first.
in_order_above :
    (l : Layer) (v : LayerValue) (g : Layer → Option LayerValue)
    → ((k : Layer) → rank k ≤ rank l → g k ≡ none)
    → in_order (λ k. if l == k then some v else g k) ≡ v ∷ in_order g
unfolding Layer-discrete
in_order_above default v g h = ground (arith, h default)
in_order_above user v g h = ground (arith, h default, h user)
in_order_above local_admin v g h = ground (arith, h default, h user, h local_admin)
in_order_above enterprise v g h = ground (arith, h default, h user, h local_admin, h enterprise)

-- An ascending entry is the list of its values in the order of their layers.
pub in_order-at_layer : (xs : List LayerValue) → IsAscending xs → in_order (λ l. at_layer l xs) ≡ xs
in_order-at_layer [] s = refl
in_order-at_layer (x ∷ xs) s =
    in_order_above x.layer x (λ l. at_layer l xs)
      (λ k low. at_layer-Above (rank x.layer) k xs low s.0)
    ∙ ap (λ ys. x ∷ ys) (in_order-at_layer xs s.1)

abbrev won : Str → List LayerValue → Option LayerValue → Option ResolvedValue
won key trace none = none
won key trace (some w) =
    some (record {
      key = key;
      effective = w.value;
      source = w.layer;
      locked = w.locked;
      trace = trace;
    })

-- The last of the values wins.
abbrev pub answer : Str → List LayerValue → Option ResolvedValue
answer key values = won key values (last values)

resolve_trace-answer :
    (key : Str) (o : Option (List LayerValue)) → resolve_trace key o ≡ answer key (or_default o)
resolve_trace-answer key none = refl
resolve_trace-answer key (some []) = refl
resolve_trace-answer key (some (x ∷ xs)) = go (last (x ∷ xs)) refl
  where
    go :
        (w : Option LayerValue)
        → last (x ∷ xs) ≡ w
        → resolve_trace key (some (x ∷ xs)) ≡ won key (x ∷ xs) (last (x ∷ xs))
    go none e = rw e
    go (some y) e = rw e

-- `resolve` answers with the values of the layers that are set.
pub resolve-answer :
    (r : Resolver) (key : Str) → IsValid r → resolve r key ≡ answer key (in_order (value_at r key))
unfolding resolve value_at
resolve-answer r key v =
    let entry = or_default (lookup key r.values) in
    resolve_trace-answer key (lookup key r.values)
    ∙ ap (answer key) (sym (in_order-at_layer entry (v.ascending key)))

-- After any calls of `set` on a new resolver, `resolve` returns nothing for a key that no call set.
-- For any other, its trace has the last value of each layer that a call set, by ascending layer and
-- no other, and the effective value, its source and its lock are those of the last of the trace.
pub resolve-set_all-answer :
    (ss : List Setting) (key : Str)
    → resolve (set_all new ss) key ≡ answer key (in_order (λ l. latest key l ss))
resolve-set_all-answer ss key =
    resolve-answer (set_all new ss) key (set_all-IsValid new ss new-IsValid)
    ∙ ap (λ at. answer key (in_order at)) (fun_ext (value_at-set_all-new ss key))
