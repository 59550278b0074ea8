-- ===== src/Storage/MemorySaver.antt =====
-- engine/storage/src/memory_saver.rs: when a tab is frozen or discarded.
use b_browser.Prelude.{Bool, if◌then◌else◌, leb, ℕ, ◌||◌}

pub data TabState : Type 0 where
  active frozen discarded : TabState

pub record TabSignals : Type 0 where
  pub is_foreground : Bool
  pub seconds_since_active : ℕ
  pub is_audible : Bool
  pub is_pinned : Bool
  pub uses_camera_or_mic : Bool

pub record SaverConfig : Type 0 where
  pub freeze_after_secs : ℕ
  pub discard_after_secs : ℕ

-- `SaverConfig::default()`
unfoldable pub default_saver : SaverConfig
default_saver = record { freeze_after_secs = 300; discard_after_secs = 1800 }

unfoldable pub decide : TabSignals → SaverConfig → TabState
decide signals cfg =
    if signals.is_foreground || signals.is_audible || signals.is_pinned
      || signals.uses_camera_or_mic
    then active
    else if leb cfg.discard_after_secs signals.seconds_since_active
    then discarded
    else if leb cfg.freeze_after_secs signals.seconds_since_active
    then frozen
    else active
