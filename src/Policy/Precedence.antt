-- ===== src/Policy/Precedence.antt =====
-- admin/policy-engine/src/precedence.rs: values set in four layers, and their resolution.
pub mod Layers
pub mod Resolution
pub mod Trace
mod Tests
use b_browser.Prelude.{
  ℕ, ◌≡◌, Bool, true, not, Option, none, some, List, [], ◌∷◌, ◌++◌, leb, filter, last, is_empty,
  if◌then◌else◌, Str, chars, text_eq,
}
use b_browser.Prelude.Eq.{PartialEq, ◌==◌, of_discrete}
use b_browser.Prelude.Assoc.{Assoc, lookup, insert}
use b_browser.Prelude.Sort.{sort_by}

pub data Layer : Type 0 where
  default user local_admin enterprise : Layer

unfoldable pub Layer-discrete : Discrete Layer
Layer-discrete = hlevel

instance abbrev pub layer_eq : PartialEq Layer
layer_eq = of_discrete Layer-discrete

-- The discriminants, which the derived order compares.
abbrev pub rank : Layer → ℕ
rank default = 0
rank user = 1
rank local_admin = 2
rank enterprise = 3

unfoldable pub name : Layer → Str
name default = chars "default"
name user = chars "user"
name local_admin = chars "local_admin"
name enterprise = chars "enterprise"

pub record LayerValue : Type 0 where
  pub layer : Layer
  pub value : Str
  pub locked : Bool

pub record ResolvedValue : Type 0 where
  pub key : Str
  pub effective : Str
  pub source : Layer
  pub locked : Bool
  pub trace : List LayerValue

pub record Resolver : Type 0 where
  pub values : Assoc Str (List LayerValue)

unfoldable pub new : Resolver
new = record { values = [] }

-- `sort_by_key(|lv| lv.layer)`
abbrev pub sort_by_layer : List LayerValue → List LayerValue
sort_by_layer = sort_by (λ a b. leb (rank a.layer) (rank b.layer))

-- `retain`, `push` and the sort, on the entry of one key.
unfoldable pub replace : List LayerValue → LayerValue → List LayerValue
replace entry lv = sort_by_layer (filter (λ x. not (x.layer == lv.layer)) entry ++ lv ∷ [])

abbrev pub or_default : Option (List LayerValue) → List LayerValue
or_default none = []
or_default (some entry) = entry

unfoldable pub set : Resolver → Str → Layer → Str → Bool → Resolver
unfolding replace
set r key layer value locked =
    let entry = or_default (lookup key r.values) in
    record {
      values =
          insert key (replace entry (record { layer = layer; value = value; locked = locked }))
            r.values;
    }

abbrev resolved : Str → List LayerValue → Option LayerValue → Option ResolvedValue
resolved key trace none = none
resolved key trace (some winner) = some (record {
  key = key;
  effective = winner.value;
  source = winner.layer;
  locked = winner.locked;
  trace = trace;
})

-- The `expect` is the `none` case of `resolved`, which the test before it rules out.
abbrev resolve_trace : Str → Option (List LayerValue) → Option ResolvedValue
resolve_trace key none = none
resolve_trace key (some trace) = if is_empty trace then none else resolved key trace (last trace)

unfoldable pub resolve : Resolver → Str → Option ResolvedValue
resolve r key = resolve_trace key (lookup key r.values)
