-- ===== src/Rendering/Selector.antt =====
-- engine/blink-integration/src/renderer_selector.rs: Blink or Gecko for an origin.
use b_browser.Prelude.Eq.{contains}
use b_browser.Prelude.{text_eq, Bool, List, Str, if◌then◌else◌}

pub data Renderer : Type 0 where
  blink gecko : Renderer

pub record SelectionContext : Type 0 where
  pub gecko_policy_origins : List Str
  pub heuristic_prefers_gecko : Bool

unfoldable pub select : Str → SelectionContext → Renderer
select origin ctx =
    if contains ctx.gecko_policy_origins origin
    then gecko
    else if ctx.heuristic_prefers_gecko
    then gecko
    else blink
