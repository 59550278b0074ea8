-- ===== src/Rendering/Throttling.antt =====
-- engine/blink-integration/src/throttling.rs: the timers of background tabs.
use b_browser.Prelude.{Bool, if◌then◌else◌, leb, ℕ}

pub data ThrottleTier : Type 0 where
  unthrottled background intensive : ThrottleTier

unfoldable pub min_timer_interval_ms : ThrottleTier → ℕ
min_timer_interval_ms unthrottled = 4
min_timer_interval_ms background = 1000
min_timer_interval_ms intensive = 60000

unfoldable pub tier : Bool → ℕ → ThrottleTier
tier is_foreground seconds_in_background =
    if is_foreground
    then unthrottled
    else if leb 300 seconds_in_background
    then intensive
    else background
