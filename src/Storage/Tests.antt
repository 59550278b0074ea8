-- ===== src/Storage/Tests.antt =====
-- The unit tests of engine-storage, and the theorems at concrete inputs.
use b_browser.Prelude.{List, [], chars, false, refl, some, true, ℕ, ◌↔◌, ◌∷◌, ◌≡◌, ◌≤◌, ◌⊎◌}
use b_browser.Storage.Profiles
use b_browser.Storage.Profiles.{incognito, persists}
use b_browser.Storage.MemorySaver.{active, frozen, discarded, TabSignals, default_saver, decide}
use b_browser.Storage.Lifecycle.{stage, IsProtected, idle_for, decide-stages}
use b_browser.Storage.SiteSettings.{
  Permission, camera, location, PermissionState, allow, block, one_time, is_granted,
}
use b_browser.Storage.Permissions.{settings_after, latest, is_granted-settings_after}

incognito_is_ephemeral : persists (Profiles.new (chars "inc-1") incognito) ≡ false
unfolding persists Profiles.new
incognito_is_ephemeral = refl

abbrev tab : ℕ → TabSignals
tab secs = record {
  is_foreground = false;
  seconds_since_active = secs;
  is_audible = false;
  is_pinned = false;
  uses_camera_or_mic = false;
}

freezes_then_discards :
    (decide (tab 10) default_saver ≡ active)
    × ((decide (tab 400) default_saver ≡ frozen) × (decide (tab 2000) default_saver ≡ discarded))
unfolding decide default_saver
freezes_then_discards = (refl, (refl, refl))

decide-stages_run :
    (IsProtected (tab 400) → decide (tab 400) default_saver ≡ active)
    × ((secs more : ℕ)
        → secs ≤ more
        → stage (decide (idle_for (tab 400) secs) default_saver)
          ≤ stage (decide (idle_for (tab 400) more) default_saver))
decide-stages_run = decide-stages (tab 400) default_saver

-- A camera granted once and then blocked. The type of floats is taken to have one value.
abbrev calls : List (Permission × PermissionState)
calls = (camera, block) ∷ (location, one_time) ∷ (camera, allow) ∷ []

is_granted-settings_after_run :
    (is_granted (settings_after tt calls) location ≡ true)
    ↔ ((latest tt location calls ≡ some allow) ⊎ (latest tt location calls ≡ some one_time))
is_granted-settings_after_run = is_granted-settings_after tt calls location
