-- ===== src/Agent/Policy.antt =====
-- ai/mcp-host/src/lib.rs: `AgentPolicy`, the permissions granted on each site.
use b_browser.Prelude.Eq.{◌==◌}
use b_browser.Prelude.{text_eq, Bool, List, Option, Str, [], any, false, none, some, ◌++◌, ◌∷◌}
use b_browser.Prelude.Assoc.{Assoc, lookup, insert}

pub record AgentPolicy : Type 0 where
  pub grants : Assoc Str (List Str)

unfoldable pub new : AgentPolicy
new = record { grants = [] }

abbrev pub or_default : Option (List Str) → List Str
or_default none = []
or_default (some permissions) = permissions

unfoldable pub grant : AgentPolicy → Str → Str → AgentPolicy
grant policy site permission = record {
  grants = insert site (or_default (lookup site policy.grants) ++ permission ∷ []) policy.grants;
}

-- `is_some_and(|ps| ps.iter().any(|p| p == permission))`
abbrev pub has_permission : Option (List Str) → Str → Bool
has_permission none permission = false
has_permission (some ps) permission = any (λ p. p == permission) ps

unfoldable pub allows : AgentPolicy → Str → Str → Bool
allows policy site permission = has_permission (lookup site policy.grants) permission
