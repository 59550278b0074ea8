-- ===== src/Net/Tracking.antt =====
-- engine/net/src/tracking_protection.rs: storage partitioned by the top-level site.
use b_browser.Prelude.{Bool, Str, chars, true, ◌++◌}

pub data EtpLevel : Type 0 where
  standard strict custom : EtpLevel

pub data StorageDecision : Type 0 where
  partitioned : (partition_key : Str) → StorageDecision
  blocked : StorageDecision

unfoldable pub partition_key : Str → Str → Str
partition_key top_level_site embedded_origin = top_level_site ++ (chars "|" ++ embedded_origin)

unfoldable pub decide_storage : Str → Str → EtpLevel → Bool → StorageDecision
unfolding partition_key
decide_storage top_level_site embedded_origin strict true = blocked
decide_storage top_level_site embedded_origin level is_known_tracker =
    partitioned (partition_key top_level_site embedded_origin)
