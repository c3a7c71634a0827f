-- ===== src/Stats/Actor.antt =====
-- `StatsActor` of src/stats.rs. The unique names that it draws are arguments, and so is the outcome of
-- each call whose failure the code only logs.
use update_delivery_system.Prelude.{
  ℕ, ◌+◌, ◌-◌, String, Bool, true, false, none, some, is_some, List, [], ◌∷◌, ◌++◌, length, leb,
  ltb, str_eq, if◌then◌else◌,
}
use update_delivery_system.Prelude.BTreeMap.{get, insert, remove, keys}
use update_delivery_system.Prelude.BTreeMap.Keys.{text_ord}
use update_delivery_system.Stats.{
  StatsEvent, ChannelStats, no_channel, Totals, apply_event, merge_stats,
}
use update_delivery_system.Stats.Files.{
  EventFiles, RollupState, StatsConfig, StatsActor, Io, ◌>>=◌, pure, gets, modify, change,
}

abbrev no_rollup : RollupState
no_rollup = record { channels = []; included_deltas = [] }

-- `read_rollup_state`.
abbrev pub rollup_state : StatsActor → RollupState
rollup_state w = elim w.rollup [ none ↦ no_rollup | some state ↦ state ]

abbrev pub put_batch : String → EventFiles → List (String × EventFiles) → List (String × EventFiles)
put_batch id files [] = []
put_batch id files ((j, old) ∷ batches) =
    if str_eq j id then (id, files) ∷ batches else (j, old) ∷ put_batch id files batches

abbrev pub without_batch : String → StatsActor → StatsActor
without_batch id w = record w { processing = remove id w.processing }

abbrev pub settle : ℕ → StatsActor → StatsActor
settle processed w = record w { pending_events = w.pending_events - processed }

-- The loop of `process_batch`: `kept` are the files passed, which stay in the batch.
unfoldable pub collect : String → EventFiles → EventFiles → Totals → Io Totals
collect id kept [] delta = pure delta
collect id kept ((name, some e) ∷ files) delta =
    collect id (kept ++ (name, some e) ∷ []) files (apply_event delta e)
collect id kept ((name, none) ∷ files) delta = do
  _ ← change (λ w. record w {
    processing = put_batch id (kept ++ files) w.processing;
    rejected = insert name none w.rejected;
  })
  collect id kept files delta

unfoldable pub aggregate_batch : String → EventFiles → Io ℕ
aggregate_batch id files = do
  delta ← collect id [] files []
  _ ← change (λ w. record w { deltas = insert id delta w.deltas })
  _ ← change (without_batch id)
  pure (length files)

-- `files` is the listing of the batch's directory.
unfoldable pub process_batch : String → EventFiles → Io ℕ
unfolding aggregate_batch
process_batch id files = do
  known ← gets (λ w. is_some (get id w.deltas))
  if known
      then (do _ ← change (without_batch id); pure (length files))
      else aggregate_batch id files

-- The loop of `recover_processing`.
unfoldable pub recover : List (String × EventFiles) → Io (Unit {0})
recover [] = pure tt
recover ((id, files) ∷ batches) = do
  count ← process_batch id files
  _ ← modify (settle count)
  recover batches

unfoldable pub recover_processing : Io (Unit {0})
recover_processing = do batches ← gets (λ w. w.processing); recover batches

-- The loop that removes the files of included deltas.
unfoldable pub remove_included : List String → Io (Unit {0})
remove_included [] = pure tt
remove_included (id ∷ ids) = do
  exists ← gets (λ w. is_some (get id w.deltas))
  _ ← if exists then change (λ w. record w { deltas = remove id w.deltas }) else pure tt
  remove_included ids

unfoldable pub clear_included : RollupState → Io (Unit {0})
clear_included state =
    change (λ w. record w { rollup = some (record state { included_deltas = [] }) })

unfoldable pub finish_included : RollupState → List (String × Unit {0}) → Io (Unit {0})
finish_included state [] = pure tt
finish_included state (i ∷ included) = do
  _ ← remove_included (keys (i ∷ included))
  clear_included state

unfoldable pub finish_interrupted_compaction : Io (Unit {0})
unfolding finish_included clear_included
finish_interrupted_compaction = do
  state ← gets rollup_state
  finish_included state state.included_deltas

-- The loop of `compact`: the totals, and the identifiers that it has added.
unfoldable pub include_deltas :
    List (String × Unit {0})
    → List (String × Totals)
    → Totals
    → List (String × Unit {0})
    → Totals × List (String × Unit {0})
include_deltas before [] channels included = (channels, included)
include_deltas before ((id, delta) ∷ deltas) channels included =
    let skipped = include_deltas before deltas channels included in
    let taken = include_deltas before deltas (merge_stats channels delta) (insert id tt included) in
    if is_some (get id before) then skipped else taken

-- `extend`.
abbrev pub extend : List (String × Unit {0}) → List String → List (String × Unit {0})
extend set [] = set
extend set (id ∷ ids) = extend (insert id tt set) ids

unfoldable pub commit_included : RollupState → Totals × List (String × Unit {0}) → Io (Unit {0})
commit_included state (channels, []) = pure tt
commit_included state (channels, i ∷ included) = do
  _ ← change (λ w. record w {
    rollup = some (record {
      channels = channels;
      included_deltas = extend state.included_deltas (keys (i ∷ included));
    });
  })
  finish_interrupted_compaction

unfoldable pub compact : Io (Unit {0})
unfolding commit_included
compact = do
  state ← gets rollup_state
  deltas ← gets (λ w. w.deltas)
  commit_included state (include_deltas state.included_deltas deltas state.channels [])

unfoldable pub compact_if_needed : Io (Unit {0})
compact_if_needed = do
  count ← gets (λ w. length w.deltas)
  if ltb count 96 then pure tt else compact

-- The loop of `rollup_events` over the listing of the events; `moves` says whether a rename succeeds,
-- `stayed` and `moved` are the files passed. The result is the listing of the batch.
unfoldable pub move_events :
    (String → Bool) → String → EventFiles → EventFiles → EventFiles → Io EventFiles
move_events moves id stayed moved [] = pure moved
move_events moves id stayed moved ((name, content) ∷ files) =
    let stays = move_events moves id (stayed ++ (name, content) ∷ []) moved files in
    let goes =
      change (λ w. record w {
        events = stayed ++ files;
        processing = put_batch id (moved ++ (name, content) ∷ []) w.processing;
      })
      >>= λ _. move_events moves id stayed (moved ++ (name, content) ∷ []) files in
    if moves name then goes else stays

unfoldable pub roll_up : (String → Bool) → String → EventFiles → Io (Unit {0})
roll_up moves id [] = compact_if_needed
roll_up moves id (file ∷ files) = do
  _ ← change (λ w. record w { processing = (id, []) ∷ w.processing })
  batch ← move_events moves id [] [] (file ∷ files)
  processed ← process_batch id batch
  _ ← modify (settle processed)
  compact_if_needed

-- `id` is the fresh identifier of the batch.
unfoldable pub rollup_events : (String → Bool) → String → Io (Unit {0})
unfolding roll_up
rollup_events moves id = do files ← gets (λ w. w.events); roll_up moves id files

-- `StatsActor::new` on the directories that are there.
unfoldable pub new_actor : Io (Unit {0})
new_actor = do
  _ ← modify (λ w. record w { pending_events = length w.events; dropping = false })
  _ ← recover_processing
  finish_interrupted_compaction

-- The loop of `current_totals`.
unfoldable pub merge_deltas : List (String × Unit {0}) → List (String × Totals) → Totals → Totals
merge_deltas included [] totals = totals
merge_deltas included ((id, delta) ∷ deltas) totals =
    let skipped = merge_deltas included deltas totals in
    let merged = merge_deltas included deltas (merge_stats totals delta) in
    if is_some (get id included) then skipped else merged

unfoldable pub current_totals : StatsActor → Totals
current_totals w =
    let state = rollup_state w in merge_deltas state.included_deltas w.deltas state.channels

-- The answer to a `ChannelStats` command.
unfoldable pub channel_answer : (String → Bool) → String → String → Io ChannelStats
channel_answer moves id channel = do
  _ ← rollup_events moves id
  totals ← gets current_totals
  pure (elim (get channel totals) [ none ↦ no_channel | some stats ↦ stats ])

-- `persist_event`: `name` is the fresh name of the event's file, and `written` says whether it is
-- written. An error of the rollup is only logged.
unfoldable pub record_written : (String → Bool) → String → StatsConfig → Io (Unit {0})
record_written moves id config = do
  _ ← modify (λ w. record w { pending_events = w.pending_events + 1; dropping = false })
  pending ← gets (λ w. w.pending_events)
  if leb config.rollup_trigger_events pending then rollup_events moves id else pure tt

unfoldable pub persist_event :
    (String → Bool) → String → String → Bool → StatsConfig → StatsEvent → Io (Unit {0})
unfolding record_written
persist_event moves id name written config e = do
  pending ← gets (λ w. w.pending_events)
  if leb config.max_pending_events pending
      then modify (λ w. record w { dropping = true })
      else if written
      then (do
        _ ← change (λ w. record w { events = w.events ++ (name, some e) ∷ [] })
        record_written moves id config)
      else modify (λ w. record w { dropping = true })
