-- ===== src/Agent/Supervision.antt =====
-- Supervision: what runs, what is journaled, and how far an undo goes back.
use b_browser.Prelude.Eq.{◌==◌}
use b_browser.Prelude.{
  ◌∙◌, sym, ◌∙◌, sym, not, ◌&&◌, last-append, Bool-cases, some, ◌++◌, Bool, List, Str, [], arith,
  inl, inr, refl, true, ◌↔◌, ◌∷◌, ◌≡◌, ◌⊎◌,
}
use mathlib.Core.List.{append_assoc, append-nil}
use b_browser.Agent.Host.{ToolCall, CallOutcome, allowed, unknown_tool, denied, authorize}
use b_browser.Agent.Journal.{JournalEntry, record_entry, undo, init-append}
use b_browser.Agent.Runtime.{
  Supervision, step_by_step, supervised, supervision_eq, StepResult, executed, AgentRuntime, step,
}

-- The steps of a run, each with whether a human approved it: their results and the state after.
unfoldable pub run : AgentRuntime → List (ToolCall × Bool) → List StepResult × AgentRuntime
run rt [] = ([], rt)
run rt ((call, approved) ∷ rest) =
    let first = step rt call approved in
    let later = run first.1 rest in (first.0 ∷ later.0, later.1)

-- The step may run: it is approved or approval is not asked for, and the host allows the call.
abbrev pub MayRun : AgentRuntime → ToolCall → Bool → Type 0
MayRun rt call approved =
    ((rt.supervision ≡ supervised) ⊎ (approved ≡ true)) × (authorize rt.host call ≡ allowed)

-- The entries of the steps whose result was `executed`.
abbrev pub executed_entries : List (ToolCall × Bool) → List StepResult → List JournalEntry
executed_entries ((call, approved) ∷ calls) (executed ∷ results) =
    record { tool = call.tool; site = call.site } ∷ executed_entries calls results
executed_entries (c ∷ calls) (r ∷ results) = executed_entries calls results
executed_entries _ _ = []

Supervision-cases : (s : Supervision) → (s ≡ step_by_step) ⊎ (s ≡ supervised)
Supervision-cases step_by_step = inl refl
Supervision-cases supervised = inr refl

pub Outcome-cases :
    (o : CallOutcome)
    → (o ≡ allowed) ⊎ ((o ≡ unknown_tool) ⊎ ((required : Str) × (o ≡ denied required)))
Outcome-cases allowed = inl refl
Outcome-cases unknown_tool = inr (inl refl)
Outcome-cases (denied required) = inr (inr (required, refl))

-- A step is executed exactly when it may run: in the step-by-step mode only with the approval of
-- this step, and in both modes only when the host allows the call.
pub step-executed :
    (rt : AgentRuntime) (call : ToolCall) (approved : Bool)
    → ((step rt call approved).0 ≡ executed) ↔ MayRun rt call approved
unfolding step
step-executed rt call approved = elim (Outcome-cases (authorize rt.host call)) [
  | inl o ↦ elim (Supervision-cases rt.supervision) [
    | inl s ↦ ground (arith, supervision_eq.same_iff rt.supervision step_by_step)
    | inr s ↦ ground (arith, supervision_eq.same_iff rt.supervision step_by_step)
  ]
  | inr (inl o) ↦ ground arith
  | inr (inr (required, o)) ↦ ground arith
]

step-journal :
    (rt : AgentRuntime) (call : ToolCall) (approved : Bool) (calls : List (ToolCall × Bool))
    (results : List StepResult)
    → (step rt call approved).1.journal.entries ++ executed_entries calls results
      ≡ rt.journal.entries
        ++ executed_entries ((call, approved) ∷ calls) ((step rt call approved).0 ∷ results)
unfolding step
step-journal rt call approved calls results =
    elim (Bool-cases (rt.supervision == step_by_step && not approved)) [
      | inl e ↦ rw e refl
      | inr e ↦ elim (Outcome-cases (authorize rt.host call)) [
        | inl o ↦ rw (e, o) (unfold record_entry in simp append_assoc)
        | inr (inl o) ↦ rw (e, o) refl
        | inr (inr (required, o)) ↦ rw (e, o) refl
      ]
    ]

-- A run adds to the journal exactly the entries of the
-- steps whose result was `executed`, in order.
pub run-journal :
    (rt : AgentRuntime) (calls : List (ToolCall × Bool))
    → ((run rt calls).1.journal.entries
        ≡ rt.journal.entries ++ executed_entries calls (run rt calls).0)
unfolding run
run-journal rt [] = sym (append-nil rt.journal.entries)
run-journal rt ((call, approved) ∷ rest) =
    run-journal (step rt call approved).1 rest
    ∙ step-journal rt call approved rest (run (step rt call approved).1 rest).0

-- An undo after an executed step returns that step's entry and the journal before it.
pub undo-step :
    (rt : AgentRuntime) (call : ToolCall) (approved : Bool)
    → MayRun rt call approved
    → undo (step rt call approved).1.journal
      ≡ (some (record { tool = call.tool; site = call.site }), rt.journal)
unfolding step undo record_entry
undo-step rt call approved (inl s, o) = ground (
  arith,
  supervision_eq.same_iff rt.supervision step_by_step,
  last-append rt.journal.entries (record { tool = call.tool; site = call.site }),
  init-append rt.journal.entries (record { tool = call.tool; site = call.site }),
)
undo-step rt call approved (inr a, o) = ground (
  arith,
  last-append rt.journal.entries (record { tool = call.tool; site = call.site }),
  init-append rt.journal.entries (record { tool = call.tool; site = call.site }),
)
