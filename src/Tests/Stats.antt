-- ===== src/Tests/Stats.antt =====
-- src/stats.rs at concrete inputs.
use update_delivery_system.Prelude.{
  ◌≡◌, ◌⊎◌, refl, String, Bool, true, false, none, some, is_some, [], ◌∷◌, if◌then◌else◌,
}
use update_delivery_system.Prelude.Words.{saturating_add}
use update_delivery_system.Stats.{
  StatsEvent, download, update_check, no_channel, Totals, apply_event,
}
use update_delivery_system.Stats.Counters.{
  checks, downloads, platform_traffic, total, weight, total-apply_event,
}
use update_delivery_system.Stats.Files.{
  StatsActor, StatsConfig, unlimited, changes, ◌>>=◌, gets, change,
}
use update_delivery_system.Stats.Actor.{
  roll_up, move_events, rollup_events, new_actor, persist_event,
}
use update_delivery_system.Stats.Batches.{Settled}
use update_delivery_system.Stats.Restarts.{
  restarted, served, rollup_survives_stops, rollup_keeps_served,
}
use update_delivery_system.Stats.Persistence.{
  accepts, persist_event_counts, persist_event_survives_stops,
}
use update_delivery_system.Prelude.BTreeMap.{get}
use update_delivery_system.Prelude.BTreeMap.Keys.{text_ord}

abbrev fetch : StatsEvent
fetch = record {
  kind = download;
  channel = "stable";
  version = some "1.2.0";
  target = some "linux";
  arch = some "x64";
  bytes = 500;
}

abbrev check : StatsEvent
check = record {
  kind = update_check;
  channel = "stable";
  version = none;
  target = none;
  arch = none;
  bytes = 0;
}

abbrev two_days : Totals
two_days = ("beta", no_channel) ∷ ("stable", record no_channel { update_checks = 2 }) ∷ []

abbrev busy : StatsActor
busy = record {
  events = ("a.json", some fetch) ∷ ("b.json", none) ∷ ("c.json", some check) ∷ [];
  processing = [];
  deltas = ("0001", two_days) ∷ [];
  rejected = [];
  rollup = none;
  pending_events = 3;
  dropping = false;
}

abbrev limits : StatsConfig
limits = record {
  queue_capacity = 100;
  max_pending_events = 10;
  rollup_trigger_events = 2;
  rollup_interval_seconds = 60;
}

abbrev all_move : String → Bool
all_move name = true

fresh : get "0002" busy.deltas ≡ none
unfolding get
fresh = refl

settled : Settled busy
settled = (refl, refl)

rollup_survives_stops_example :
    let last =
      new_actor unlimited
        (restarted (changes 1 ∷ []) (rollup_events all_move "0002" (changes 4) busy).1) in
    (is_some last.0 ≡ true)
    × Settled last.1
    × (served downloads "stable" last.1 ≡ served downloads "stable" busy)
rollup_survives_stops_example =
    rollup_survives_stops downloads "stable" all_move "0002" busy settled fresh (changes 4)
      (changes 1 ∷ [])

rollup_keeps_served_example :
    let last = rollup_events all_move "0002" unlimited busy in
    (is_some last.0 ≡ true)
    × Settled last.1
    × (served checks "stable" last.1 ≡ served checks "stable" busy)
rollup_keeps_served_example = rollup_keeps_served checks "stable" all_move "0002" busy settled fresh

persist_event_counts_example :
    let last = persist_event all_move "0002" "d.json" true limits fetch unlimited busy in
    (is_some last.0 ≡ true)
    × Settled last.1
    × (served downloads "stable" last.1 ≡ (
        if accepts true limits busy
        then saturating_add (served downloads "stable" busy) (weight downloads "stable" fetch)
        else served downloads "stable" busy))
persist_event_counts_example =
    persist_event_counts downloads "stable" all_move "0002" "d.json" true limits fetch busy settled
      fresh

persist_event_survives_stops_example :
    let last = new_actor unlimited (
      restarted [] (persist_event all_move "0002" "d.json" true limits fetch (changes 5) busy).1) in
    (is_some last.0 ≡ true)
    × ((served downloads "stable" last.1 ≡ served downloads "stable" busy)
        ⊎ (served downloads "stable" last.1
            ≡ saturating_add (served downloads "stable" busy) (weight downloads "stable" fetch)))
persist_event_survives_stops_example =
    persist_event_survives_stops downloads "stable" all_move "0002" "d.json" true limits fetch busy
      settled fresh (changes 5) []

total-apply_event_example :
    total (platform_traffic "linux-x64") "stable" (apply_event two_days fetch)
    ≡ saturating_add
        (total (platform_traffic "linux-x64") "stable" two_days)
        (weight (platform_traffic "linux-x64") "stable" fetch)
total-apply_event_example = total-apply_event (platform_traffic "linux-x64") "stable" two_days fetch

-- A stop after the third change of the file system leaves two files in the batch, and one event.
stopped_moves :
    let w = (rollup_events all_move "0002" (changes 3) busy).1 in
    (w.processing ≡ ("0002", ("a.json", some fetch) ∷ ("b.json", none) ∷ []) ∷ [])
    × (w.events ≡ ("c.json", some check) ∷ [])
unfolding rollup_events roll_up gets change ◌>>=◌ move_events
stopped_moves = (refl, refl)
