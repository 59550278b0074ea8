-- ===== src/Policy/Cli/Tests.antt =====
-- Runs of the command line, and the theorem at a concrete input.
use b_browser.Prelude.{last, List, Str, [], chars, none, refl, some, ◌∷◌, ◌≡◌}
use b_browser.Policy.Precedence.{Layer, Layer-discrete, user, enterprise, layer_eq, new, resolve}
use b_browser.Policy.Precedence.Resolution.{set_all}
use b_browser.Prelude.Assoc.{lookup, insert}
use b_browser.Policy.Precedence.{set, name}
use b_browser.Policy.Precedence.Trace.{in_order}
use b_browser.Policy.Cli.Output.{program}
use b_browser.Policy.Cli.Journey.{given, report, program-resolve}
use b_browser.Policy.Cli.{unset, run_resolve, main, usage, evaluated}
use b_browser.Policy.Cli.Arguments.{set_args, lock_args, settings, run_resolve_lem}

abbrev pairs : List (Layer × Str)
pairs = (enterprise, chars "dark") ∷ (user, chars "light=er") ∷ []

run_resolve_lem_run :
    run_resolve (chars "--key" ∷ chars "ui.theme" ∷ set_args pairs (lock_args (enterprise ∷ [])))
    ≡ (
      chars "ui.theme",
      resolve
          (set_all new (settings (chars "ui.theme") (enterprise ∷ []) pairs))
          (chars "ui.theme"),
    )
run_resolve_lem_run = run_resolve_lem (chars "ui.theme") pairs (enterprise ∷ [])

no_arguments : main [] ≡ usage 0
unfolding main
no_arguments = refl

unknown_command : main (chars "bogus" ∷ []) ≡ usage 2
unfolding main
unknown_command = refl

evaluate_reads_flags :
    main (chars "evaluate" ∷ chars "--input" ∷ chars "i.json" ∷ [])
    ≡ evaluated none (some (chars "i.json"))
unfolding main
evaluate_reads_flags = refl

program-resolve_example :
    program (chars "2.0.0") (
      chars "resolve"
      ∷ chars "--key"
      ∷ chars "ui.theme"
      ∷ set_args pairs (lock_args (enterprise ∷ [])))
    ≡ report
        (chars "ui.theme")
        (in_order (given (enterprise ∷ []) pairs))
        (last (in_order (given (enterprise ∷ []) pairs)))
program-resolve_example = program-resolve (chars "2.0.0") (chars "ui.theme") pairs (enterprise ∷ [])

-- What stands on the two streams and the status.
printed :
    program (chars "2.0.0") (
      chars "resolve"
      ∷ chars "--key"
      ∷ chars "ui.theme"
      ∷ set_args pairs (lock_args (enterprise ∷ [])))
    ≡ record {
      stdout =
          chars "key       = ui.theme"
          ∷ chars "effective = dark"
          ∷ chars "source    = enterprise"
          ∷ chars "locked    = true"
          ∷ chars "trace:"
          ∷ chars "  user        = light=er (locked=false)"
          ∷ chars "  enterprise  = dark (locked=true)"
          ∷ [];
      stderr = [];
      status = 0;
    }
unfolding program name set resolve new lookup insert Layer-discrete
printed = refl

-- A pair that stands before `--key` is set under the empty key.
key_last :
    main
      (chars "resolve" ∷ chars "--set" ∷ chars "user=dark" ∷ chars "--key" ∷ chars "ui.theme" ∷ [])
    ≡ unset (chars "ui.theme")
unfolding main set resolve new lookup insert
key_last = refl
