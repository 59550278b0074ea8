-- ===== src/Net/Partitions.antt =====
-- When two embedded frames share storage.
use mathlib.Core.List.{append_assoc}
use b_browser.Prelude.{Bool, Str, arith, chars, false, sym, true, ◌++◌, ◌↔◌, ◌∙◌, ◌≡◌}
use b_browser.Prelude.Splits.{Lacks, join-Injective}
use b_browser.Net.Tracking.{
  EtpLevel, standard, strict, custom, partitioned, blocked, partition_key, decide_storage,
}

decide_storage-blocked :
    (site origin : Str) (level : EtpLevel) (tracker : Bool)
    → (decide_storage site origin level tracker ≡ blocked) ↔ ((level ≡ strict) × (tracker ≡ true))
unfolding decide_storage
decide_storage-blocked site origin strict true = ground arith
decide_storage-blocked site origin strict false = ground arith
decide_storage-blocked site origin standard tracker = ground arith
decide_storage-blocked site origin custom tracker = ground arith

partition_key-of :
    (site origin key : Str) (level : EtpLevel) (tracker : Bool)
    → decide_storage site origin level tracker ≡ partitioned key
    → key ≡ partition_key site origin
unfolding decide_storage
partition_key-of site origin key strict true h = absurd (ground arith)
partition_key-of site origin key strict false h = ground arith
partition_key-of site origin key standard tracker h = ground arith
partition_key-of site origin key custom tracker h = ground arith

-- Storage is refused exactly to known trackers under the strict level. Two frames that get the same
-- partition have the same top-level site and the same origin, whatever the levels, where no
-- top-level site contains `|`.
pub decide_storage-isolates :
    (site origin site' origin' : Str) (level level' : EtpLevel) (tracker tracker' : Bool)
    → Lacks 124 site
    → Lacks 124 site'
    → ((decide_storage site origin level tracker ≡ blocked) ↔ ((level ≡ strict) × (tracker ≡ true)))
      × ((key : Str)
          → decide_storage site origin level tracker ≡ partitioned key
          → decide_storage site' origin' level' tracker' ≡ partitioned key
          → (site ≡ site') × (origin ≡ origin'))
unfolding partition_key
decide_storage-isolates site origin site' origin' level level' tracker tracker' h h' = (
  decide_storage-blocked site origin level tracker,
  λ key e e'. join-Injective 124 site origin site' origin' h h' (
      sym (partition_key-of site origin key level tracker e)
      ∙ partition_key-of site' origin' key level' tracker' e'),
)

-- Different pairs share a key when a top-level site ends in `|` and an origin.
pub partition_key_collision :
    (site between origin : Str)
    → partition_key (site ++ (chars "|" ++ between)) origin
      ≡ partition_key site (between ++ (chars "|" ++ origin))
unfolding partition_key
partition_key_collision site between origin =
    append_assoc site (chars "|" ++ between) (chars "|" ++ origin)
