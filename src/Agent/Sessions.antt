-- ===== src/Agent/Sessions.antt =====
-- A whole session: grants and registrations first, then a run of the agent.
use b_browser.Agent.Runtime
use b_browser.Prelude.Eq.{◌==◌}
use b_browser.Prelude.{
  ap, Bool, Bool-cases, find, if◌then◌else◌, inl, inr, List, map, not, refl, Str, sym, text_eq,
  true, false, [], ◌&&◌, ◌++◌, ◌∙◌, ◌∷◌, ◌≡◌,
}
use mathlib.Core.Path.{fun_ext}
use mathlib.Core.List.{append_assoc, append-nil}
use b_browser.Agent.Host.{Tool, ToolCall, CallOutcome, allowed, unknown_tool, denied, authorize}
use b_browser.Agent.Journal.{JournalEntry, new_entry, record_entry}
use b_browser.Agent.Runtime.{
  Supervision, step_by_step, supervision_eq, StepResult, executed, no_such_tool, awaiting_approval,
  blocked_by_policy, AgentRuntime, step, action_count,
}
use b_browser.Agent.Supervision.{run, Outcome-cases}
use b_browser.Agent.Authorization.{policy_after, host_after, outcome, authorize-host_after}

abbrev pub is_executed : StepResult → Bool
is_executed executed = true
is_executed no_such_tool = false
is_executed awaiting_approval = false
is_executed (blocked_by_policy required) = false

abbrev pub result_of : CallOutcome → StepResult
result_of allowed = executed
result_of unknown_tool = no_such_tool
result_of (denied required) = blocked_by_policy required

-- What a step answers: it waits where approval is asked for and not given, and else says what the
-- gate decides.
abbrev pub answer : Supervision → (ToolCall → CallOutcome) → ToolCall × Bool → StepResult
answer mode gate (call, approved) =
    if mode == step_by_step && not approved then awaiting_approval else result_of (gate call)

-- The entries of the calls that are answered by running them.
abbrev pub journal_of : (ToolCall × Bool → StepResult) → List (ToolCall × Bool) → List JournalEntry
journal_of f [] = []
journal_of f (c ∷ calls) =
    let rest = journal_of f calls in
    if is_executed (f c) then new_entry c.0.tool c.0.site ∷ rest else rest

step-answer :
    (rt : AgentRuntime) (call : ToolCall) (approved : Bool)
    → step rt call approved ≡ (
      answer rt.supervision (authorize rt.host) (call, approved),
      (if is_executed (answer rt.supervision (authorize rt.host) (call, approved))
          then record rt { journal = record_entry rt.journal (new_entry call.tool call.site) }
          else rt),
    )
unfolding step
step-answer rt call approved = elim (Bool-cases (rt.supervision == step_by_step && not approved)) [
  | inl e ↦ rw e refl
  | inr e ↦ elim (Outcome-cases (authorize rt.host call)) [
    | inl o ↦ rw (e, o) refl
    | inr (inl o) ↦ rw (e, o) refl
    | inr (inr (required, o)) ↦ rw (e, o) refl
  ]
]

-- The runtime with further entries in its journal.
abbrev pub with_entries : AgentRuntime → List JournalEntry → AgentRuntime
with_entries rt more = record rt { journal = record { entries = rt.journal.entries ++ more } }

run-answer :
    (rt : AgentRuntime) (calls : List (ToolCall × Bool))
    → run rt calls ≡ (
      map (answer rt.supervision (authorize rt.host)) calls,
      with_entries rt (journal_of (answer rt.supervision (authorize rt.host)) calls),
    )
unfolding run record_entry
run-answer rt [] =
    ap (λ l. ([], record rt { journal = record { entries = l } }))
      (sym (append-nil rt.journal.entries))
run-answer rt ((call, approved) ∷ calls) =
    elim (Bool-cases (is_executed (answer rt.supervision (authorize rt.host) (call, approved)))) [
      | inl e ↦
          rw (step-answer, e)
            (ap
                (λ (r : List StepResult × AgentRuntime).
                  (answer rt.supervision (authorize rt.host) (call, approved) ∷ r.0, r.1))
                (run-answer
                  (record rt { journal = record_entry rt.journal (new_entry call.tool call.site) })
                  calls)
              ∙ ap
                  (λ l. (
                    answer rt.supervision (authorize rt.host) (call, approved)
                        ∷ map (answer rt.supervision (authorize rt.host)) calls,
                    record rt { journal = record { entries = l } },
                  ))
                  (append_assoc rt.journal.entries (new_entry call.tool call.site ∷ [])
                    (journal_of (answer rt.supervision (authorize rt.host)) calls)))
      | inr e ↦
          rw (step-answer, e)
            (ap
              (λ (r : List StepResult × AgentRuntime).
                (answer rt.supervision (authorize rt.host) (call, approved) ∷ r.0, r.1))
              (run-answer rt calls))
    ]

-- The gate, in terms of the grants and the registrations.
abbrev pub gate : List (Str × Str) → List Tool → ToolCall → CallOutcome
gate grants tools call = outcome grants call.site (find (λ t. t.name == call.tool) tools)

-- A session refines a table look-up: after any grants and registrations, whatever calls the agent
-- then makes, each is answered on its own from the mode, its approval, the latest registration of
-- its tool and the grants on its site; the journal of the runtime is that of the executed calls, in
-- order and with nothing else; and the host and the mode are what they were.
pub run-session :
    (grants : List (Str × Str)) (tools : List Tool) (mode : Supervision)
    (calls : List (ToolCall × Bool))
    → let host = host_after (policy_after grants) tools in
      let answers = answer mode (gate grants tools) in
      run (Runtime.new host mode) calls ≡ (
        map answers calls,
        record {
          host = host;
          journal = record { entries = journal_of answers calls };
          supervision = mode;
        },
      )
unfolding Runtime.new
run-session grants tools mode calls =
    run-answer (Runtime.new (host_after (policy_after grants) tools) mode) calls
    ∙ ap
        (λ g. (
          map (answer mode g) calls,
          record {
            host = host_after (policy_after grants) tools;
            journal = record { entries = journal_of (answer mode g) calls };
            supervision = mode;
          },
        ))
        (fun_ext λ call. authorize-host_after grants tools call)
