-- ===== src/Agent/Host.antt =====
-- ai/mcp-host/src/lib.rs: the tool registry and the gate in front of it.
use b_browser.Prelude.{text_eq, List, Option, Str, [], chars, if◌then◌else◌, none, some, ◌++◌, ◌∷◌}
use b_browser.Prelude.Assoc.{Assoc, lookup, insert}
use b_browser.Agent.Policy.{AgentPolicy, allows}

pub record Tool : Type 0 where
  pub name : Str
  pub description : Str
  pub required_permission : Str

pub record ToolCall : Type 0 where
  pub tool : Str
  pub site : Str
  pub arguments : Assoc Str Str

pub record McpHost : Type 0 where
  pub tools : Assoc Str Tool
  pub policy : AgentPolicy

pub data CallOutcome : Type 0 where
  allowed unknown_tool : CallOutcome
  denied : (required : Str) → CallOutcome

unfoldable pub new : AgentPolicy → McpHost
new policy = record { tools = []; policy = policy }

unfoldable pub register : McpHost → Tool → McpHost
register host tool = record host { tools = insert tool.name tool host.tools }

abbrev pub standard_tool : Str × Str → Tool
standard_tool (name, perm) = record {
  name = name;
  description = chars "Browser tool: " ++ name;
  required_permission = perm;
}

abbrev pub standard_tools : List (Str × Str)
standard_tools =
    (chars "navigate", chars "agent.actuate")
    ∷ (chars "click", chars "agent.actuate")
    ∷ (chars "type", chars "agent.actuate")
    ∷ (chars "scroll", chars "agent.actuate")
    ∷ (chars "read_page", chars "agent.observe")
    ∷ (chars "fetch", chars "agent.network")
    ∷ []

-- The `for` loop.
abbrev pub register_all : McpHost → List (Str × Str) → McpHost
register_all host [] = host
register_all host (tool ∷ rest) = register_all (register host (standard_tool tool)) rest

unfoldable pub with_standard_tools : AgentPolicy → McpHost
unfolding new register
with_standard_tools policy = register_all (new policy) standard_tools

abbrev pub authorize_tool : AgentPolicy → Str → Option Tool → CallOutcome
authorize_tool policy site none = unknown_tool
authorize_tool policy site (some tool) =
    if allows policy site tool.required_permission then allowed else denied tool.required_permission

unfoldable pub authorize : McpHost → ToolCall → CallOutcome
authorize host call = authorize_tool host.policy call.site (lookup call.tool host.tools)
