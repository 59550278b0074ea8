-- ===== src/Policy/Cli/Output.antt =====
-- admin/policy-engine/src/main.rs: what the program prints, and its exit status. The version is
-- that of the build's manifest; the feature `opa-wasm` is off, as in the default build.
use b_browser.Prelude.{ℕ, Option, none, some, List, [], ◌∷◌, ◌++◌, map, Str, chars}
use b_browser.Prelude.Text.{show_bool, pad_to}
use b_browser.Policy.Precedence.{name, LayerValue, ResolvedValue}
use b_browser.Policy.Cli.{Outcome, version, resolved, unset, evaluated, usage, main}

-- The lines of the two streams, each without its line break.
pub record Output : Type 0 where
  pub stdout : List Str
  pub stderr : List Str
  pub status : ℕ

abbrev success : List Str → Output
success lines = record { stdout = lines; stderr = []; status = 0 }

abbrev pub trace_line : LayerValue → Str
trace_line lv =
    chars "  "
    ++ (pad_to 11 (name lv.layer)
        ++ (chars " = " ++ (lv.value ++ (chars " (locked=" ++ (show_bool lv.locked ++ chars ")")))))

abbrev pub resolved_lines : ResolvedValue → List Str
resolved_lines r =
    (chars "key       = " ++ r.key)
    ∷ (chars "effective = " ++ r.effective)
    ∷ (chars "source    = " ++ name r.source)
    ∷ (chars "locked    = " ++ show_bool r.locked)
    ∷ chars "trace:"
    ∷ map trace_line r.trace

abbrev usage_lines : List Str
usage_lines =
    chars "policy-engine — Browser 2030B Administrative Configuration Plane"
    ∷ []
    ∷ chars "USAGE:"
    ∷ chars "  policy-engine resolve --key <k> --set <layer>=<value> [--lock <layer>] ..."
    ∷ chars "  policy-engine evaluate --bundle <file.rego> --input <file.json>"
    ∷ chars "  policy-engine version"
    ∷ []

abbrev or_none : Option Str → Str
or_none none = chars "<none>"
or_none (some s) = s

abbrev pub evaluated_lines : Option Str → Option Str → List Str
evaluated_lines bundle input =
    (chars "evaluate: bundle=" ++ (or_none bundle ++ (chars " input=" ++ or_none input)))
    ∷ (chars "OPA Wasm runtime: not compiled in. Rebuild with `--features opa-wasm` "
        ++ (chars "to evaluate Rego bundles. "
            ++ chars "The bundle and input were validated for presence only."))
    ∷ []

abbrev unset_output : Str → Output
unset_output key = record {
  stdout = [];
  stderr = (chars "key '" ++ (key ++ chars "' is unset at every layer")) ∷ [];
  status = 1;
}

unfoldable pub print : Str → Outcome → Output
print built version = success ((chars "policy-engine " ++ (built ++ chars " (b2030b)")) ∷ [])
print built (resolved r) = success (resolved_lines r)
print built (unset key) = unset_output key
print built (evaluated bundle input) = success (evaluated_lines bundle input)
print built (usage status) = record { stdout = []; stderr = usage_lines; status = status }

-- The whole program, on the arguments after its name.
unfoldable pub program : Str → List Str → Output
unfolding main print
program built args = print built (main args)
