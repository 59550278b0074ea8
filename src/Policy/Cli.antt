-- ===== src/Policy/Cli.antt =====
-- admin/policy-engine/src/main.rs: the command line. What the program prints is returned; the
-- arguments are those after the program's name.
pub mod Arguments
pub mod Output
pub mod Journey
mod Tests
use b_browser.Prelude.{
  text_eq, List, Option, Str, [], chars, if◌then◌else◌, none, some, ℕ, ◌||◌, ◌∷◌,
}
use b_browser.Prelude.Eq.{◌==◌, contains}
use b_browser.Prelude.Text.{split_once}
use b_browser.Policy.Precedence.{
  Layer, default, user, local_admin, enterprise, layer_eq, ResolvedValue, Resolver, new, set,
  resolve,
}

unfoldable pub parse_layer : Str → Option Layer
parse_layer s =
    if s == chars "default"
    then some default
    else if s == chars "user"
    then some user
    else if s == chars "local_admin" || s == chars "local-admin"
    then some local_admin
    else if s == chars "enterprise"
    then some enterprise
    else none

abbrev first : List Str → Option Str
first [] = none
first (a ∷ rest) = some a

abbrev parse_first : Option Str → Option Layer
parse_first none = none
parse_first (some s) = parse_layer s

abbrev push_some : Option Layer → List Layer → List Layer
push_some none ls = ls
push_some (some l) ls = l ∷ ls

-- The first pass: it looks at every position.
unfoldable pub collect_locks : List Str → List Layer
unfolding parse_layer
collect_locks [] = []
collect_locks (a ∷ rest) =
    let more = collect_locks rest in
    if a == chars "--lock" then push_some (parse_first (first rest)) more else more

abbrev set_parsed : List Layer → Str → Str → Option Layer → Resolver → Resolver
set_parsed locks key value none r = r
set_parsed locks key value (some layer) r = set r key layer value (contains locks layer)

abbrev set_pair : List Layer → Str → Option (Str × Str) → Resolver → Resolver
set_pair locks key none r = r
set_pair locks key (some (layer_s, value)) r = set_parsed locks key value (parse_layer layer_s) r

-- The second pass, from a key and a resolver: `--key` and `--set` take the next argument with them.
unfoldable pub scan : List Layer → List Str → Str → Resolver → Str × Resolver
unfolding parse_layer
scan locks [] key r = (key, r)
scan locks (a ∷ []) key r = if a == chars "--key" then ([], r) else (key, r)
scan locks (a ∷ b ∷ rest) key r =
    let after_key = scan locks rest b r in
    let after_set = scan locks rest key (set_pair locks key (split_once b'=' b) r) in
    let next = scan locks (b ∷ rest) key r in
    if a == chars "--key" then after_key else if a == chars "--set" then after_set else next

unfoldable pub run_resolve : List Str → Str × Option ResolvedValue
unfolding collect_locks scan
run_resolve args =
    let (key, resolver) = scan (collect_locks args) args [] new in (key, resolve resolver key)

-- The argument after the first occurrence of a flag.
unfoldable pub arg_value : List Str → Str → Option Str
arg_value [] flag = none
arg_value (a ∷ rest) flag = if a == flag then first rest else arg_value rest flag

pub data Outcome : Type 0 where
  version : Outcome
  resolved : ResolvedValue → Outcome
  -- exit status 1
  unset : Str → Outcome
  evaluated : Option Str → Option Str → Outcome
  -- the usage text, with the exit status
  usage : ℕ → Outcome

abbrev resolve_outcome : Str × Option ResolvedValue → Outcome
resolve_outcome (key, none) = unset key
resolve_outcome (key, some r) = resolved r

unfoldable pub run_evaluate : List Str → Outcome
unfolding arg_value
run_evaluate args = evaluated (arg_value args (chars "--bundle")) (arg_value args (chars "--input"))

unfoldable pub main : List Str → Outcome
unfolding run_resolve run_evaluate
main [] = usage 0
main (cmd ∷ args) =
    if cmd == chars "version"
    then version
    else if cmd == chars "resolve"
    then resolve_outcome (run_resolve args)
    else if cmd == chars "evaluate"
    then run_evaluate args
    else usage (if cmd == chars "help" then 0 else 2)
