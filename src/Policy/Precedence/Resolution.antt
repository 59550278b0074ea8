-- ===== src/Policy/Precedence/Resolution.antt =====
-- What `Resolver::resolve` returns after any calls of `Resolver::set`.
use b_browser.Prelude.{
  ◌≡◌, refl, Bool, Option, none, some, List, [], ◌∷◌, ◌&&◌, arith, last, if◌then◌else◌, Bool-cases,
  inl, inr, Str, text_eq, ap, ◌∙◌,
}
use mathlib.Core.Path.{fun_ext}
use b_browser.Prelude.Eq.{◌==◌}
use b_browser.Prelude.Assoc.{lookup, lookup-insert}
use b_browser.Policy.Precedence.{
  Layer, layer_eq, LayerValue, ResolvedValue, Resolver, new, set, replace, resolve, resolve_trace,
  or_default,
}
use b_browser.Policy.Precedence.Layers.{
  at_layer, IsAscending, highest, at_layer-replace, replace-IsAscending, last-highest, ◌or_else◌,
}

-- The value that the resolver holds for a key at a layer.
unfoldable pub value_at : Resolver → Str → Layer → Option LayerValue
value_at r key l = at_layer l (or_default (lookup key r.values))

-- Every entry is strictly ascending by layer.
pub record IsValid (r : Resolver) : Type 0 where
  pub ascending : (key : Str) → IsAscending (or_default (lookup key r.values))

-- `set` keeps every entry strictly ascending by layer.
pub set-IsValid :
    (r : Resolver) (key : Str) (l : Layer) (value : Str) (locked : Bool)
    → IsValid r
    → IsValid (set r key l value locked)
unfolding set
set-IsValid r key l value locked v = record {
  ascending = λ k.
      let lv : LayerValue = record { layer = l; value = value; locked = locked } in
      elim (Bool-cases (key == k)) [
        | inl e ↦
            rw (lookup-insert, e)
              (replace-IsAscending lv (or_default (lookup key r.values)) (v.ascending key))
        | inr e ↦ rw (lookup-insert, e) (v.ascending k)
      ];
}

-- `set` writes the value of one key at one layer, and no other.
pub value_at-set :
    (r : Resolver) (key k : Str) (l m : Layer) (value : Str) (locked : Bool)
    → value_at (set r key l value locked) k m ≡ (
        if key == k && l == m
        then some (record { layer = l; value = value; locked = locked })
        else value_at r k m)
unfolding set value_at
value_at-set r key k l m value locked =
    let lv : LayerValue = record { layer = l; value = value; locked = locked } in
    ground (
      arith,
      lookup-insert key k (replace (or_default (lookup key r.values)) lv) r.values,
      at_layer-replace m lv (or_default (lookup key r.values)),
      text_eq.same_iff key k,
    )

-- The parts of a resolved value that its winner decides.
abbrev pub summary : Option ResolvedValue → Option LayerValue
summary none = none
summary (some v) = some (record { layer = v.source; value = v.effective; locked = v.locked })

summary-last :
    (key : Str) (o : Option (List LayerValue)) → summary (resolve_trace key o) ≡ last (or_default o)
summary-last key none = refl
summary-last key (some []) = refl
summary-last key (some (x ∷ xs)) = go (last (x ∷ xs)) refl
  where
    go :
        (w : Option LayerValue)
        → last (x ∷ xs) ≡ w
        → summary (resolve_trace key (some (x ∷ xs))) ≡ last (x ∷ xs)
    go none e = rw e
    go (some y) e = rw e

-- Strict precedence: whatever was set, and in whatever order, `resolve` returns the value, source
-- and lock of the highest layer at which the key is set (Enterprise, then LocalAdmin, User,
-- Default), and nothing exactly when it is set at none.
pub resolve-highest :
    (r : Resolver) (key : Str) → IsValid r → summary (resolve r key) ≡ highest (value_at r key)
unfolding resolve value_at
resolve-highest r key v =
    summary-last key (lookup key r.values)
    ∙ last-highest (or_default (lookup key r.values)) (v.ascending key)

trace_entry :
    (key : Str) (o : Option (List LayerValue)) (v : ResolvedValue)
    → resolve_trace key o ≡ some v
    → (v.key ≡ key) × (v.trace ≡ or_default o)
trace_entry key none v e = cc
trace_entry key (some []) v e = cc
trace_entry key (some (x ∷ xs)) v e = ground arith

-- The trace of a resolved value lists, in strictly ascending order of layer, the values that the
-- key has at each layer, all of them and no other.
pub resolve-trace :
    (r : Resolver) (key : Str) {v : ResolvedValue}
    → IsValid r
    → resolve r key ≡ some v
    → (v.key ≡ key) × IsAscending v.trace × ((l : Layer) → at_layer l v.trace ≡ value_at r key l)
unfolding resolve value_at
resolve-trace r key {v} valid e =
    let t = trace_entry key (lookup key r.values) v e in
    (t.0, rw t.1 (valid.ascending key), λ l. rw t.1)

-- The calls of `set` from a new resolver.
pub record Setting : Type 0 where
  pub key : Str
  pub layer : Layer
  pub value : Str
  pub locked : Bool

unfoldable pub set_all : Resolver → List Setting → Resolver
set_all r [] = r
set_all r (s ∷ rest) = set_all (set r s.key s.layer s.value s.locked) rest

-- However the calls are ordered, each entry stays strictly ascending by layer.
pub set_all-IsValid : (r : Resolver) (ss : List Setting) → IsValid r → IsValid (set_all r ss)
unfolding set_all
set_all-IsValid r [] v = v
set_all-IsValid r (s ∷ rest) v =
    set_all-IsValid (set r s.key s.layer s.value s.locked) rest
      (set-IsValid r s.key s.layer s.value s.locked v)

pub new-IsValid : IsValid new
unfolding new lookup
new-IsValid = record { ascending = λ k. tt }

-- The last setting of a key at a layer, looked up in the calls themselves.
abbrev pub latest : Str → Layer → List Setting → Option LayerValue
latest key l [] = none
latest key l (s ∷ rest) =
    latest key l rest
    or_else (if s.key == key && s.layer == l
        then some (record { layer = s.layer; value = s.value; locked = s.locked })
        else none)

value_at-set_all :
    (r : Resolver) (ss : List Setting) (key : Str) (l : Layer)
    → value_at (set_all r ss) key l ≡ (latest key l ss or_else value_at r key l)
unfolding set_all
value_at-set_all r [] key l = refl
value_at-set_all r (s ∷ rest) key l = ground (
  arith,
  value_at-set_all (set r s.key s.layer s.value s.locked) rest key l,
  value_at-set r s.key key s.layer l s.value s.locked,
)

value_at-new : (key : Str) (l : Layer) → value_at new key l ≡ none
unfolding value_at new lookup
value_at-new key l = refl

or_else-none {ℓ} : {A : Type ℓ} (o : Option A) → (o or_else none) ≡ o
or_else-none none = refl
or_else-none (some a) = refl

-- What the calls of `set` on a new resolver leave for a key at a layer.
pub value_at-set_all-new :
    (ss : List Setting) (key : Str) (l : Layer) → value_at (set_all new ss) key l ≡ latest key l ss
value_at-set_all-new ss key l =
    value_at-set_all new ss key l
    ∙ ap (λ o. latest key l ss or_else o) (value_at-new key l)
    ∙ or_else-none (latest key l ss)

-- After any calls of `set` on a new resolver, `resolve` returns for each key the last value that
-- was set at the highest layer at which any was set, with that layer and its lock flag, and
-- nothing exactly when the key was never set.
pub resolve-set_all :
    (ss : List Setting) (key : Str)
    → summary (resolve (set_all new ss) key) ≡ highest (λ l. latest key l ss)
resolve-set_all ss key =
    resolve-highest (set_all new ss) key (set_all-IsValid new ss new-IsValid)
    ∙ ap highest (fun_ext (value_at-set_all-new ss key))
