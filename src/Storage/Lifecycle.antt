-- ===== src/Storage/Lifecycle.antt =====
-- The stages of a background tab over time.
use b_browser.Prelude.{arith, true, ℕ, ◌≡◌, ◌≤◌, ◌⊎◌}
use b_browser.Storage.MemorySaver.{
  TabState, active, frozen, discarded, TabSignals, SaverConfig, decide,
}

abbrev pub stage : TabState → ℕ
stage active = 0
stage frozen = 1
stage discarded = 2

-- One of the four uses that keep a tab alive.
abbrev pub IsProtected : TabSignals → Type 0
IsProtected s =
    (s.is_foreground ≡ true)
    ⊎ ((s.is_audible ≡ true) ⊎ ((s.is_pinned ≡ true) ⊎ (s.uses_camera_or_mic ≡ true)))

abbrev pub idle_for : TabSignals → ℕ → TabSignals
idle_for s secs = record s { seconds_since_active = secs }

-- A tab that is in the foreground, audible, pinned or capturing is active whatever the time and the
-- thresholds. For any other use that stays the same, more idle time never brings a tab back to an
-- earlier stage.
pub decide-stages :
    (s : TabSignals) (cfg : SaverConfig)
    → (IsProtected s → decide s cfg ≡ active)
      × ((secs more : ℕ)
          → secs ≤ more
          → stage (decide (idle_for s secs) cfg) ≤ stage (decide (idle_for s more) cfg))
unfolding decide
decide-stages s cfg = (λ h. ground arith, λ secs more le. ground arith)
