-- ===== src/Stats.antt =====
-- src/stats.rs: the statistics. Here are the data and the two aggregations; the children hold the
-- files and the actor, and what is proved of them.
pub mod Counters
pub mod Files
pub mod Actor
pub mod Sums
pub mod Recorded
pub mod Batches
pub mod Moves
pub mod Compaction
pub mod Commit
pub mod Recovery
pub mod Restarts
pub mod Persistence
use update_delivery_system.Prelude.{ℕ, String, Option, none, some, List, [], ◌∷◌, if◌then◌else◌}
use update_delivery_system.Prelude.Text.{◌<>◌}
use update_delivery_system.Prelude.Words.{saturating_add}
use update_delivery_system.Prelude.BTreeMap.{entry_or}
use update_delivery_system.Prelude.BTreeMap.Keys.{text_ord}

pub data StatsEventKind : Type 0 where
  update_check download : StatsEventKind

pub record StatsEvent : Type 0 where
  pub kind : StatsEventKind
  pub channel : String
  pub version : Option String
  pub target : Option String
  pub arch : Option String
  pub bytes : ℕ

pub record PlatformStats : Type 0 where
  pub downloads : ℕ
  pub traffic_bytes : ℕ

pub record ChannelStats : Type 0 where
  pub update_checks : ℕ
  pub downloads : ℕ
  pub traffic_bytes : ℕ
  pub by_platform : List (String × PlatformStats)

abbrev pub no_platform : PlatformStats
no_platform = record { downloads = 0; traffic_bytes = 0 }

abbrev pub no_channel : ChannelStats
no_channel = record { update_checks = 0; downloads = 0; traffic_bytes = 0; by_platform = [] }

-- The totals of all channels.
abbrev pub Totals : Type 0
Totals = List (String × ChannelStats)

unfoldable pub platform_key : Option String → Option String → String
platform_key (some target) (some arch) = target <> "-" <> arch
platform_key (some target) none = "unknown"
platform_key none arch = "unknown"

unfoldable pub add_platform : PlatformStats → PlatformStats → PlatformStats
add_platform source target = record {
  downloads = saturating_add target.downloads source.downloads;
  traffic_bytes = saturating_add target.traffic_bytes source.traffic_bytes;
}

-- The `match` of `apply_event` on one channel.
unfoldable pub count_event : StatsEventKind → StatsEvent → ChannelStats → ChannelStats
count_event update_check e c = record c { update_checks = saturating_add c.update_checks 1 }
count_event download e c = record c {
  downloads = saturating_add c.downloads 1;
  traffic_bytes = saturating_add c.traffic_bytes e.bytes;
  by_platform =
      entry_or (platform_key e.target e.arch) no_platform
        (add_platform (record { downloads = 1; traffic_bytes = e.bytes })) c.by_platform;
}

unfoldable pub apply_event : Totals → StatsEvent → Totals
apply_event rollup e = entry_or e.channel no_channel (count_event e.kind e) rollup

-- The inner loop of `merge_stats`.
unfoldable pub merge_platforms :
    List (String × PlatformStats) → List (String × PlatformStats) → List (String × PlatformStats)
merge_platforms target [] = target
merge_platforms target ((platform, source) ∷ rest) =
    merge_platforms (entry_or platform no_platform (add_platform source) target) rest

unfoldable pub add_channel : ChannelStats → ChannelStats → ChannelStats
add_channel source target = record {
  update_checks = saturating_add target.update_checks source.update_checks;
  downloads = saturating_add target.downloads source.downloads;
  traffic_bytes = saturating_add target.traffic_bytes source.traffic_bytes;
  by_platform = merge_platforms target.by_platform source.by_platform;
}

unfoldable pub merge_stats : Totals → Totals → Totals
merge_stats target [] = target
merge_stats target ((channel, source) ∷ rest) =
    merge_stats (entry_or channel no_channel (add_channel source) target) rest
