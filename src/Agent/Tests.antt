-- ===== src/Agent/Tests.antt =====
-- The unit tests of mcp-host and agent-runtime, and the theorems at concrete inputs.
use b_browser.Prelude.Assoc.{insert, lookup}
use b_browser.Prelude.{
  Bool, List, Str, [], chars, false, inr, none, refl, some, true, ◌++◌, ◌↔◌, ◌∷◌, ◌≡◌,
}
use b_browser.Agent.Policy
use b_browser.Agent.Policy.{AgentPolicy, grant, allows}
use b_browser.Agent.Host.{
  Tool, ToolCall, McpHost, allowed, unknown_tool, denied, with_standard_tools, authorize,
}
use b_browser.Agent.Authorization.{policy_after, host_after, authorize-host_after}
use b_browser.Agent.Journal
use b_browser.Agent.Journal.{undo}
use b_browser.Agent.Runtime
use b_browser.Agent.Runtime.{
  no_such_tool, AgentRuntime, Supervision-discrete, step_by_step, supervised, executed,
  awaiting_approval, blocked_by_policy, step, action_count,
}
use b_browser.Agent.Supervision.{
  run, MayRun, executed_entries, step-executed, run-journal, undo-step,
}
use b_browser.Agent.Sessions.{run-session}
use b_browser.Agent.Did.{Did, parse_did, verify_presentation}
use b_browser.Agent.DidSyntax.{print_did, IsDid, parse_did_iff}

abbrev site : Str
site = chars "https://x.example"

abbrev call : Str → ToolCall
call tool = record { tool = tool; site = site; arguments = [] }

abbrev click : ToolCall
click = call (chars "click")

granted_host : McpHost
unfolding with_standard_tools grant Policy.new lookup insert
granted_host = with_standard_tools (grant Policy.new site (chars "agent.actuate"))

denies_without_grant :
    authorize (with_standard_tools Policy.new) click ≡ denied (chars "agent.actuate")
unfolding authorize with_standard_tools Policy.new allows lookup insert
denies_without_grant = refl

allows_when_granted : authorize granted_host click ≡ allowed
unfolding granted_host authorize with_standard_tools Policy.new grant allows lookup insert
allows_when_granted = refl

unknown_reported : authorize granted_host (call (chars "teleport")) ≡ unknown_tool
unfolding granted_host authorize with_standard_tools Policy.new grant allows lookup insert
unknown_reported = refl

runtime : AgentRuntime
unfolding Runtime.new
runtime = Runtime.new granted_host step_by_step

waits : (step runtime click false).0 ≡ awaiting_approval
unfolding runtime granted_host step authorize with_standard_tools Supervision-discrete
waits = refl

counted : action_count (step runtime click true).1 ≡ 1
unfolding runtime granted_host step authorize with_standard_tools Supervision-discrete action_count
    Policy.new grant allows lookup insert
counted = refl

may_click : MayRun runtime click true
unfolding runtime
may_click = (inr refl, allows_when_granted)

parses_did :
    parse_did (chars "did:web:example.com")
    ≡ some (record { method = chars "web"; identifier = chars "example.com" })
unfolding parse_did
parses_did = refl

rejects_other : parse_did (chars "https://example.com") ≡ none
unfolding parse_did
rejects_other = refl

holder_must_match :
    verify_presentation
      (chars "did:web:alice")
      (chars "did:web:bob")
      (chars "did:web:gov")
      (chars "did:web:gov" ∷ [])
    ≡ false
unfolding verify_presentation
holder_must_match = refl

abbrev tool : Tool
tool = record {
  name = chars "click";
  description = chars "Click";
  required_permission = chars "agent.actuate";
}

abbrev grants : List (Str × Str)
grants = (site, chars "agent.observe") ∷ (site, chars "agent.actuate") ∷ []

authorize-host_after_example :
    authorize (host_after (policy_after grants) (tool ∷ [])) click ≡ allowed
authorize-host_after_example = authorize-host_after grants (tool ∷ []) click

step-executed_run : ((step runtime click true).0 ≡ executed) ↔ MayRun runtime click true
step-executed_run = step-executed runtime click true

abbrev steps : List (ToolCall × Bool)
steps = (click, false) ∷ (click, true) ∷ (call (chars "teleport"), true) ∷ []

run-journal_run :
    (run runtime steps).1.journal.entries
    ≡ runtime.journal.entries ++ executed_entries steps (run runtime steps).0
run-journal_run = run-journal runtime steps

undo-step_run :
    undo (step runtime click true).1.journal
    ≡ (some (record { tool = chars "click"; site = site }), runtime.journal)
undo-step_run = undo-step runtime click true may_click

abbrev web : Did
web = record { method = chars "web"; identifier = chars "example.com" }

parse_did_iff_example :
    (parse_did (chars "did:web:example.com") ≡ some web)
    ↔ ((chars "did:web:example.com" ≡ print_did web) × IsDid web)
parse_did_iff_example = parse_did_iff (chars "did:web:example.com") web

run-session_example :
    run (Runtime.new (host_after (policy_after grants) (tool ∷ [])) step_by_step) steps ≡ (
      awaiting_approval ∷ executed ∷ no_such_tool ∷ [],
      record {
        host = host_after (policy_after grants) (tool ∷ []);
        journal = record { entries = record { tool = chars "click"; site = site } ∷ [] };
        supervision = step_by_step;
      },
    )
unfolding Supervision-discrete
run-session_example = run-session grants (tool ∷ []) step_by_step steps
