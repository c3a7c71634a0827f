-- ===== src/Stats/Counters.antt =====
-- Each counter of the statistics is a saturating sum, and the aggregations of src/stats.rs add.
use update_delivery_system.Prelude.{
  ℕ, ◌≤◌, ◌≡◌, refl, ◌∙◌, String, List, [], ◌∷◌, arith, str_eq, eq_iff, if◌then◌else◌,
}
use update_delivery_system.Prelude.Words.{u64_max, saturating_add}
use update_delivery_system.Prelude.BTreeMap.{entry_or}
use update_delivery_system.Prelude.BTreeMap.Keys.{text_ord}
use update_delivery_system.Stats.{
  StatsEventKind, update_check, download, StatsEvent, PlatformStats, ChannelStats, no_platform,
  no_channel, Totals, platform_key, add_platform, count_event, apply_event, merge_platforms,
  add_channel, merge_stats,
}

module _ {V : Type 0} (w : V → ℕ) where
  -- The sum at a key; a map has at most one entry there.
  abbrev pub sum_at : String → List (String × V) → ℕ
  sum_at k [] = 0
  sum_at k ((j, v) ∷ m) =
      let rest = sum_at k m in if str_eq j k then saturating_add (w v) rest else rest

  pub sum_at-le : (k : String) (m : List (String × V)) → sum_at k m ≤ u64_max
  unfolding saturating_add
  sum_at-le k [] = omega arith
  sum_at-le k ((j, v) ∷ m) = ground (arith, sum_at-le k m)

  pub sum_at-entry_or :
      (k key : String) (d : V) (f : V → V) (n : ℕ) (m : List (String × V))
      → w d ≡ 0
      → ((v : V) → w (f v) ≡ saturating_add (w v) n)
      → sum_at k (entry_or key d f m) ≡ saturating_add (sum_at k m) (if str_eq key k then n else 0)
  unfolding entry_or saturating_add
  sum_at-entry_or k key d f n [] z h = ground (arith, h d)
  sum_at-entry_or k key d f n ((j, v) ∷ m) z h = ground (
    arith,
    h v,
    h d,
    sum_at-entry_or k key d f n m z h,
    sum_at-le k m,
    eq_iff j key,
    eq_iff key k,
    eq_iff j k,
  )

-- One number of a channel's statistics.
pub data Counter : Type 0 where
  checks downloads traffic : Counter
  platform_downloads platform_traffic : String → Counter

-- A field of type `u64` as the number that it holds.
abbrev pub as_u64 : ℕ → ℕ
as_u64 n = saturating_add n 0

abbrev pub downloads_of : PlatformStats → ℕ
downloads_of p = as_u64 p.downloads

abbrev pub traffic_of : PlatformStats → ℕ
traffic_of p = as_u64 p.traffic_bytes

abbrev pub value : Counter → ChannelStats → ℕ
value checks c = as_u64 c.update_checks
value downloads c = as_u64 c.downloads
value traffic c = as_u64 c.traffic_bytes
value (platform_downloads p) c = sum_at downloads_of p c.by_platform
value (platform_traffic p) c = sum_at traffic_of p c.by_platform

-- A counter of one channel in the totals.
abbrev pub total : Counter → String → Totals → ℕ
total μ channel m = sum_at (value μ) channel m

-- What an event adds to a counter of its own channel.
abbrev pub kind_weight : Counter → StatsEventKind → StatsEvent → ℕ
kind_weight checks update_check e = 1
kind_weight downloads download e = 1
kind_weight traffic download e = e.bytes
kind_weight (platform_downloads p) download e =
    if str_eq (platform_key e.target e.arch) p then 1 else 0
kind_weight (platform_traffic p) download e =
    if str_eq (platform_key e.target e.arch) p then e.bytes else 0
kind_weight _ _ e = 0

-- What an event adds to a counter of a channel.
abbrev pub weight : Counter → String → StatsEvent → ℕ
weight μ channel e = if str_eq e.channel channel then kind_weight μ e.kind e else 0

value-no_channel : (μ : Counter) → value μ no_channel ≡ 0
unfolding saturating_add
value-no_channel checks = refl
value-no_channel downloads = refl
value-no_channel traffic = refl
value-no_channel (platform_downloads p) = refl
value-no_channel (platform_traffic p) = refl

add_platform-downloads :
    (source target : PlatformStats)
    → downloads_of (add_platform source target)
      ≡ saturating_add (downloads_of target) (downloads_of source)
unfolding add_platform saturating_add
add_platform-downloads source target = omega arith

add_platform-traffic :
    (source target : PlatformStats)
    → traffic_of (add_platform source target)
      ≡ saturating_add (traffic_of target) (traffic_of source)
unfolding add_platform saturating_add
add_platform-traffic source target = omega arith

value-count_event :
    (μ : Counter) (k : StatsEventKind) (e : StatsEvent) (c : ChannelStats)
    → value μ (count_event k e c) ≡ saturating_add (value μ c) (kind_weight μ k e)
unfolding count_event saturating_add
value-count_event checks update_check e c = omega arith
value-count_event checks download e c = omega arith
value-count_event downloads update_check e c = omega arith
value-count_event downloads download e c = omega arith
value-count_event traffic update_check e c = omega arith
value-count_event traffic download e c = omega arith
value-count_event (platform_downloads p) update_check e c =
    omega (arith, sum_at-le downloads_of p c.by_platform)
value-count_event (platform_downloads p) download e c =
    sum_at-entry_or downloads_of p (platform_key e.target e.arch) no_platform _ _ c.by_platform refl
      (add_platform-downloads _)
    ∙ ground arith
value-count_event (platform_traffic p) update_check e c =
    omega (arith, sum_at-le traffic_of p c.by_platform)
value-count_event (platform_traffic p) download e c =
    sum_at-entry_or traffic_of p (platform_key e.target e.arch) no_platform _ _ c.by_platform refl
      (add_platform-traffic _)
    ∙ ground arith

-- Applying an event adds its weight to every counter of every channel.
pub total-apply_event :
    (μ : Counter) (channel : String) (m : Totals) (e : StatsEvent)
    → total μ channel (apply_event m e) ≡ saturating_add (total μ channel m) (weight μ channel e)
unfolding apply_event
total-apply_event μ channel m e =
    sum_at-entry_or (value μ) channel e.channel no_channel (count_event e.kind e) _ m
      (value-no_channel μ) (value-count_event μ e.kind e)

sum_at-merge_platforms :
    (w : PlatformStats → ℕ) (p : String) (t s : List (String × PlatformStats))
    → w no_platform ≡ 0
    → ((a b : PlatformStats) → w (add_platform a b) ≡ saturating_add (w b) (w a))
    → sum_at w p (merge_platforms t s) ≡ saturating_add (sum_at w p t) (sum_at w p s)
unfolding merge_platforms
sum_at-merge_platforms w p t [] z h = unfold saturating_add in omega (arith, sum_at-le w p t)
sum_at-merge_platforms w p t ((q, a) ∷ s) z h =
    sum_at-merge_platforms w p (entry_or q no_platform (add_platform a) t) s z h
    ∙ rw (sum_at-entry_or w p q no_platform (add_platform a) (w a) t z (h a))
        (unfold saturating_add in ground arith)

value-add_channel :
    (μ : Counter) (s t : ChannelStats)
    → value μ (add_channel s t) ≡ saturating_add (value μ t) (value μ s)
unfolding add_channel
value-add_channel checks s t = unfold saturating_add in omega arith
value-add_channel downloads s t = unfold saturating_add in omega arith
value-add_channel traffic s t = unfold saturating_add in omega arith
value-add_channel (platform_downloads p) s t =
    sum_at-merge_platforms downloads_of p t.by_platform s.by_platform
      (unfold saturating_add in refl) add_platform-downloads
value-add_channel (platform_traffic p) s t =
    sum_at-merge_platforms traffic_of p t.by_platform s.by_platform (unfold saturating_add in refl)
      add_platform-traffic

-- Merging totals adds them, counter by counter and channel by channel.
pub total-merge_stats :
    (μ : Counter) (channel : String) (t s : Totals)
    → total μ channel (merge_stats t s) ≡ saturating_add (total μ channel t) (total μ channel s)
unfolding merge_stats
total-merge_stats μ channel t [] =
    unfold saturating_add in omega (arith, sum_at-le (value μ) channel t)
total-merge_stats μ channel t ((q, a) ∷ s) =
    total-merge_stats μ channel (entry_or q no_channel (add_channel a) t) s
    ∙ rw
        (sum_at-entry_or (value μ) channel q no_channel (add_channel a) (value μ a) t
          (value-no_channel μ) (value-add_channel μ a))
        (unfold saturating_add in ground arith)
