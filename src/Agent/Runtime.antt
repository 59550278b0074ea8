-- ===== src/Agent/Runtime.antt =====
-- ai/agent-runtime/src/lib.rs: one step of the agent. The journal is part of the state that a step
-- returns.
use b_browser.Agent.Journal
use b_browser.Prelude.Eq.{of_discrete, PartialEq, ◌==◌}
use b_browser.Prelude.{Bool, Str, if◌then◌else◌, not, ℕ, ◌&&◌}
use b_browser.Agent.Host.{McpHost, ToolCall, CallOutcome, allowed, unknown_tool, denied, authorize}
use b_browser.Agent.Journal.{ActionJournal, new_entry, record_entry, len}

pub data Supervision : Type 0 where
  step_by_step supervised : Supervision

unfoldable pub Supervision-discrete : Discrete Supervision
Supervision-discrete = hlevel

instance abbrev pub supervision_eq : PartialEq Supervision
supervision_eq = of_discrete Supervision-discrete

-- `StepResult::UnknownTool` is `no_such_tool`: the name is taken by the outcome of a call.
pub data StepResult : Type 0 where
  executed no_such_tool awaiting_approval : StepResult
  blocked_by_policy : (required : Str) → StepResult

pub record AgentRuntime : Type 0 where
  pub host : McpHost
  pub journal : ActionJournal
  pub supervision : Supervision

unfoldable pub new : McpHost → Supervision → AgentRuntime
unfolding Journal.new
new host supervision = record { host = host; journal = Journal.new; supervision = supervision }

abbrev pub step_outcome : AgentRuntime → ToolCall → CallOutcome → StepResult × AgentRuntime
step_outcome rt call allowed =
    (executed, record rt { journal = record_entry rt.journal (new_entry call.tool call.site) })
step_outcome rt call (denied required) = (blocked_by_policy required, rt)
step_outcome rt call unknown_tool = (no_such_tool, rt)

unfoldable pub step : AgentRuntime → ToolCall → Bool → StepResult × AgentRuntime
unfolding record_entry
step rt call approved =
    if rt.supervision == step_by_step && not approved
    then (awaiting_approval, rt)
    else step_outcome rt call (authorize rt.host call)

unfoldable pub action_count : AgentRuntime → ℕ
unfolding len
action_count rt = len rt.journal
