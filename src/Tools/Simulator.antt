-- ===== src/Tools/Simulator.antt =====
-- tools/policy-simulator/src/main.rs: the lines that the simulator prints. `args` are the arguments
-- with the program's name.
use b_browser.Prelude.Text.{show_bool}
use b_browser.Prelude.Eq.{◌==◌}
use b_browser.Prelude.{
  text_eq, List, Option, Str, [], chars, false, if◌then◌else◌, none, some, true, ◌++◌, ◌∷◌,
}
use b_browser.Policy.Precedence.{
  Layer, default, user, enterprise, ResolvedValue, Resolver, name, set, resolve,
}
use b_browser.Policy.Precedence
use b_browser.Policy.Provenance.{DecisionSpan, with_input, to_log_line}
use b_browser.Policy.Provenance

abbrev next : List Str → Option Str
next [] = none
next (a ∷ args) = some a

-- `position` and then `get`: the argument after the first occurrence of the flag.
unfoldable pub arg : List Str → Str → Option Str
arg [] flag = none
arg (a ∷ args) flag = let later = arg args flag in if a == flag then next args else later

abbrev pub or_none : Option Str → Str
or_none none = chars "<none>"
or_none (some s) = s

abbrev pub doh_key : Str
doh_key = chars "network.doh.provider"

unfoldable pub demonstration : Resolver
unfolding set Precedence.new
demonstration =
    set
      (set (set Precedence.new doh_key default (chars "https://b2030b.example/dns-query") false)
        doh_key user (chars "https://dns.google/dns-query") false)
      doh_key enterprise (chars "https://dns.quad9.net/dns-query") true

-- The lines from the resolved value on.
abbrev pub report : Option ResolvedValue → List Str
report none = []
report (some resolved) =
    let span =
      with_input
        (Provenance.new (chars "network") (chars "doh.provider") resolved.effective
          (chars "enterprise_doh") resolved.source)
        (chars "data_residency") (chars "eu") in
    (chars "Effective: "
      ++ (resolved.effective
          ++ (chars " (source="
              ++ (name resolved.source
                  ++ (chars ", locked=" ++ (show_bool resolved.locked ++ chars ")"))))))
    ∷ (chars "Provenance span: " ++ to_log_line span)
    ∷ []

-- `none` for `resolved` is the panic of `expect`.
unfoldable pub main : List Str → List Str
unfolding arg demonstration resolve
main args =
    chars "b2030b policy simulate"
    ∷ (chars "  bundle   = " ++ or_none (arg args (chars "--bundle")))
    ∷ (chars "  scenario = " ++ or_none (arg args (chars "--scenario")))
    ∷ []
    ∷ report (resolve demonstration doh_key)
