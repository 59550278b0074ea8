-- ===== src/Policy/Cli/Journey.antt =====
-- `policy-engine resolve` from its arguments to what it prints.
use b_browser.Prelude.{
  ◌≡◌, refl, Option, none, some, List, [], ◌∷◌, ◌++◌, map, arith, if◌then◌else◌, Str, chars,
  text_eq, last, ap, ◌∙◌,
}
use mathlib.Core.Path.{fun_ext}
use b_browser.Prelude.Eq.{◌==◌, contains}
use b_browser.Prelude.Text.{show_bool}
use b_browser.Policy.Precedence.{Layer, layer_eq, name, LayerValue}
use b_browser.Policy.Precedence.Layers.{◌or_else◌}
use b_browser.Policy.Precedence.Resolution.{latest}
use b_browser.Policy.Precedence.Trace.{in_order, answer, resolve-set_all-answer}
use b_browser.Policy.Cli.{main, resolve_outcome}
use b_browser.Policy.Cli.Arguments.{set_args, lock_args, settings, run_resolve_lem}
use b_browser.Policy.Cli.Output.{Output, program, print, trace_line}

-- The last pair of a layer, locked where the layer is among the `--lock` arguments.
abbrev pub given : List Layer → List (Layer × Str) → Layer → Option LayerValue
given locks [] l = none
given locks ((m, v) ∷ ss) l =
    given locks ss l
    or_else (if m == l
        then some (record { layer = m; value = v; locked = contains locks m })
        else none)

latest-settings :
    (key : Str) (locks : List Layer) (ss : List (Layer × Str)) (l : Layer)
    → latest key l (settings key locks ss) ≡ given locks ss l
latest-settings key locks [] l = refl
latest-settings key locks ((m, v) ∷ ss) l =
    ground (arith, latest-settings key locks ss l, text_eq.same_iff key key)

-- What stands on the two streams for the values of a key by ascending layer.
abbrev pub report : Str → List LayerValue → Option LayerValue → Output
report key values none = record {
  stdout = [];
  stderr = (chars "key '" ++ (key ++ chars "' is unset at every layer")) ∷ [];
  status = 1;
}
report key values (some w) = record {
  stdout =
      (chars "key       = " ++ key)
      ∷ (chars "effective = " ++ w.value)
      ∷ (chars "source    = " ++ name w.layer)
      ∷ (chars "locked    = " ++ show_bool w.locked)
      ∷ chars "trace:"
      ∷ map trace_line values;
  stderr = [];
  status = 0;
}

print-answer :
    (built key : Str) (values : List LayerValue)
    → print built (resolve_outcome (key, answer key values)) ≡ report key values (last values)
unfolding print
print-answer built key values = go (last values) refl
  where
    go :
        (w : Option LayerValue)
        → last values ≡ w
        → print built (resolve_outcome (key, answer key values)) ≡ report key values (last values)
    go none e = rw e
    go (some y) e = rw e

-- `policy-engine resolve --key k` with any `--set` pairs and then any `--lock` layers prints, of
-- each layer the last pair: in the trace those of all layers that have one, by ascending layer, and
-- above it the last of these with its layer and its lock, where a layer is locked exactly if it is
-- among the `--lock` arguments. Without a pair it fails with status 1.
pub program-resolve :
    (built key : Str) (ss : List (Layer × Str)) (ls : List Layer)
    → program built (chars "resolve" ∷ chars "--key" ∷ key ∷ set_args ss (lock_args ls))
      ≡ report key (in_order (given ls ss)) (last (in_order (given ls ss)))
unfolding program main
program-resolve built key ss ls =
    ap (λ p. print built (resolve_outcome p)) (run_resolve_lem key ss ls)
    ∙ ap (λ o. print built (resolve_outcome (key, o)))
        (resolve-set_all-answer (settings key ls ss) key)
    ∙ ap (λ at. print built (resolve_outcome (key, answer key (in_order at))))
        (fun_ext (latest-settings key ls ss))
    ∙ print-answer built key (in_order (given ls ss))
