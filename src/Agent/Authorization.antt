-- ===== src/Agent/Authorization.antt =====
-- What the gate lets through, in terms of the grants made and the tools registered so far.
use b_browser.Agent.Policy
use b_browser.Agent.Host
use b_browser.Prelude.Eq.{◌==◌}
use b_browser.Prelude.{
  any-append, Bool, List, Option, Option-cases, Str, [], any, arith, find, if◌then◌else◌, inl, inr,
  none, refl, some, text_eq, ◌&&◌, ◌++◌, ◌||◌, ◌∷◌, ◌≡◌,
}
use b_browser.Prelude.Assoc.{lookup, lookup-insert}
use b_browser.Agent.Policy.{AgentPolicy, grant, allows, or_default}
use b_browser.Agent.Host.{
  Tool, ToolCall, McpHost, CallOutcome, allowed, unknown_tool, denied, register, authorize,
  with_standard_tools, standard_tools, standard_tool, register_all,
}

-- The policy after some grants, the latest first.
unfoldable pub policy_after : List (Str × Str) → AgentPolicy
policy_after [] = Policy.new
policy_after ((site, permission) ∷ earlier) = grant (policy_after earlier) site permission

-- The host after some registrations, the latest first.
unfoldable pub host_after : AgentPolicy → List Tool → McpHost
host_after policy [] = Host.new policy
host_after policy (tool ∷ earlier) = register (host_after policy earlier) tool

-- Some grant is of this permission on this site.
abbrev pub is_granted : List (Str × Str) → Str → Str → Bool
is_granted grants site permission = any (λ (s, p). s == site && p == permission) grants

-- The outcome by the latest registration of the tool's name.
abbrev pub outcome : List (Str × Str) → Str → Option Tool → CallOutcome
outcome grants site none = unknown_tool
outcome grants site (some tool) =
    if is_granted grants site tool.required_permission
    then allowed
    else denied tool.required_permission

allows-grant :
    (policy : AgentPolicy) (site permission s p : Str)
    → allows (grant policy site permission) s p
      ≡ ((site == s && permission == p) || allows policy s p)
unfolding allows grant
allows-grant policy site permission s p = elim (Option-cases (lookup site policy.grants)) [
  | inl e ↦ ground (
    arith,
    lookup-insert site s (or_default (lookup site policy.grants) ++ permission ∷ []) policy.grants,
    text_eq.same_iff site s,
  )
  | inr (ps, e) ↦ ground (
    arith,
    lookup-insert site s (or_default (lookup site policy.grants) ++ permission ∷ []) policy.grants,
    text_eq.same_iff site s,
    any-append (λ q. q == p) ps (permission ∷ []),
  )
]

pub allows-policy_after :
    (grants : List (Str × Str)) (site permission : Str)
    → allows (policy_after grants) site permission ≡ is_granted grants site permission
unfolding policy_after
allows-policy_after [] site permission = unfold allows Policy.new lookup in refl
allows-policy_after ((s, p) ∷ earlier) site permission = ground (
  arith,
  allows-grant (policy_after earlier) s p site permission,
  allows-policy_after earlier site permission,
)

lookup-host_after :
    (policy : AgentPolicy) (tools : List Tool) (name : Str)
    → lookup name (host_after policy tools).tools ≡ find (λ t. t.name == name) tools
unfolding host_after register
lookup-host_after policy [] name = unfold Host.new lookup in refl
lookup-host_after policy (tool ∷ earlier) name = ground (
  arith,
  lookup-insert tool.name name tool (host_after policy earlier).tools,
  lookup-host_after policy earlier name,
)

policy-host_after :
    (policy : AgentPolicy) (tools : List Tool) → (host_after policy tools).policy ≡ policy
unfolding host_after register
policy-host_after policy [] = unfold Host.new in refl
policy-host_after policy (tool ∷ earlier) = policy-host_after policy earlier

-- After any grants and registrations a call is decided by the latest registration of its tool's
-- name: unknown when there is none, allowed when the permission it requires was granted on the
-- call's site, and denied with that permission otherwise.
pub authorize-host_after :
    (grants : List (Str × Str)) (tools : List Tool) (call : ToolCall)
    → authorize (host_after (policy_after grants) tools) call
      ≡ outcome grants call.site (find (λ t. t.name == call.tool) tools)
unfolding authorize
authorize-host_after grants tools call =
    elim (Option-cases (find (λ t. t.name == call.tool) tools)) [
      | inl e ↦ ground (arith, lookup-host_after (policy_after grants) tools call.tool)
      | inr (t, e) ↦ ground (
        arith,
        lookup-host_after (policy_after grants) tools call.tool,
        policy-host_after (policy_after grants) tools,
        allows-policy_after grants call.site t.required_permission,
      )
    ]
