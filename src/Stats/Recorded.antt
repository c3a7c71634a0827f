-- ===== src/Stats/Recorded.antt =====
-- What the directories of src/stats.rs hold of one counter, and how each change of the file system
-- that a rollup or a compaction makes leaves it.
use update_delivery_system.Prelude.{
  ℕ, ◌≡◌, refl, ◌∙◌, ap, String, true, false, ◌||◌, Option, none, is_some, List, [], ◌∷◌, ◌++◌,
  arith, str_eq, eq_iff, if◌then◌else◌,
}
use update_delivery_system.Prelude.Words.{saturating_add}
use update_delivery_system.Prelude.BTreeMap.{get, insert, remove, get-insert, keys}
use update_delivery_system.Prelude.BTreeMap.Keys.{text_ord}
use update_delivery_system.Stats.{StatsEvent, Totals, merge_stats}
use update_delivery_system.Stats.Files.{EventFiles, RollupState, StatsActor}
use update_delivery_system.Stats.Actor.{
  rollup_state, include_deltas, extend, merge_deltas, current_totals,
}
use update_delivery_system.Stats.Counters.{Counter, value, total, sum_at-le, total-merge_stats}
use update_delivery_system.Stats.Sums.{
  absent, sum_where, sum_where-cong, sum_where-remove, sum_where-insert, sum_where-none, sum_files,
  sum_files-le, sum_files-append, remove_all, listed, sum_where-remove_all, listed-keys,
}

-- A batch has at most one entry, which is the case of every stop of a rollup.
abbrev pub single : String → EventFiles → List (String × EventFiles)
single id files = (id, files) ∷ []

get-extend :
    (k : String) (ids : List String) (set : List (String × Unit {0}))
    → is_some (get k (extend set ids)) ≡ listed k ids || is_some (get k set)
get-extend k [] set = refl
get-extend k (id ∷ ids) set =
    ground (arith, get-extend k ids (insert id tt set), get-insert id k tt set)

get-include_deltas :
    (k : String) (before : List (String × Unit {0})) (deltas : List (String × Totals))
    (channels : Totals) (included : List (String × Unit {0}))
    → before ≡ []
    → is_some (get k (include_deltas before deltas channels included).1)
      ≡ is_some (get k deltas) || is_some (get k included)
unfolding get include_deltas
get-include_deltas k before [] channels included e = refl
get-include_deltas k before ((id, delta) ∷ deltas) channels included e = ground (
  arith,
  ap (get id) e,
  get-include_deltas k before deltas (merge_stats channels delta) (insert id tt included) e,
  get-insert id k tt included,
)

module _ (μ : Counter) (channel : String) where
  -- The deltas that are not in the rollup yet.
  abbrev pub sum_deltas : RollupState → List (String × Totals) → ℕ
  sum_deltas state deltas = sum_where (total μ channel) (absent state.included_deltas) deltas

  -- The batches that have no delta yet.
  abbrev pub sum_batches : List (String × Totals) → List (String × EventFiles) → ℕ
  sum_batches deltas batches = sum_where (sum_files μ channel) (absent deltas) batches

  abbrev pub recorded_in :
      RollupState → List (String × Totals) → List (String × EventFiles) → EventFiles → ℕ
  recorded_in state deltas batches events =
      saturating_add (saturating_add (total μ channel state.channels) (sum_deltas state deltas))
        (saturating_add (sum_batches deltas batches) (sum_files μ channel events))

  -- All that is recorded: each event once, wherever it lies.
  abbrev pub recorded : StatsActor → ℕ
  recorded w = recorded_in (rollup_state w) w.deltas w.processing w.events

  -- A malformed file leaves the batch.
  pub recorded-reject :
      (state : RollupState) (deltas : List (String × Totals)) (id name : String)
      (kept files events : EventFiles)
      → recorded_in state deltas (single id (kept ++ (name, none) ∷ files)) events
        ≡ recorded_in state deltas (single id (kept ++ files)) events
  unfolding saturating_add
  recorded-reject state deltas id name kept files events = ground (
    arith,
    sum_files-append μ channel kept ((name, none) ∷ files),
    sum_files-append μ channel kept files,
    sum_files-le μ channel files,
  )

  -- The delta of a batch is written.
  pub recorded-write_delta :
      (state : RollupState) (deltas : List (String × Totals)) (id : String) (delta : Totals)
      (files events : EventFiles)
      → get id deltas ≡ none
      → state.included_deltas ≡ []
      → total μ channel delta ≡ sum_files μ channel files
      → recorded_in state (insert id delta deltas) (single id files) events
        ≡ recorded_in state deltas (single id files) events
  unfolding saturating_add get
  recorded-write_delta state deltas id delta files events e i t = ground (
    arith,
    sum_where-insert (total μ channel) (absent state.included_deltas) id delta deltas e,
    get-insert id id delta deltas,
    eq_iff id id,
    ap (get id) i,
  )

  -- A batch that has a delta is removed.
  pub recorded-remove_batch :
      (state : RollupState) (deltas : List (String × Totals)) (id : String)
      (files events : EventFiles)
      → is_some (get id deltas) ≡ true
      → recorded_in state deltas (single id files) events ≡ recorded_in state deltas [] events
  unfolding saturating_add
  recorded-remove_batch state deltas id files events e = ground arith

  -- A batch without files is made.
  pub recorded-make_batch :
      (state : RollupState) (deltas : List (String × Totals)) (id : String) (events : EventFiles)
      → recorded_in state deltas (single id []) events ≡ recorded_in state deltas [] events
  unfolding saturating_add
  recorded-make_batch state deltas id events = ground arith

  -- An event is moved into a batch that has no delta.
  pub recorded-move :
      (state : RollupState) (deltas : List (String × Totals)) (id name : String)
      (content : Option StatsEvent) (stayed moved files : EventFiles)
      → get id deltas ≡ none
      → recorded_in state deltas (single id (moved ++ (name, content) ∷ [])) (stayed ++ files)
        ≡ recorded_in state deltas (single id moved) (stayed ++ (name, content) ∷ files)
  unfolding saturating_add
  recorded-move state deltas id name content stayed moved files e = ground (
    arith,
    sum_files-append μ channel moved ((name, content) ∷ []),
    sum_files-append μ channel stayed files,
    sum_files-append μ channel stayed ((name, content) ∷ files),
  )

  -- The file of an included delta is removed.
  pub recorded-remove_delta :
      (state : RollupState) (deltas : List (String × Totals)) (id : String) (events : EventFiles)
      → is_some (get id state.included_deltas) ≡ true
      → recorded_in state (remove id deltas) [] events ≡ recorded_in state deltas [] events
  recorded-remove_delta state deltas id events e =
      rw
        (sum_where-remove (total μ channel) (absent state.included_deltas) id deltas
          ∙ sum_where-cong (total μ channel)
              (λ j. if str_eq j id then false else absent state.included_deltas j)
              (absent state.included_deltas) deltas (λ j. ground (arith, eq_iff j id)))
        refl

  -- Once the included deltas are gone, the rollup may forget which they were.
  pub recorded-clear_included :
      (state : RollupState) (deltas : List (String × Totals)) (events : EventFiles)
      → recorded_in
          (record state { included_deltas = [] })
          (remove_all (keys state.included_deltas) deltas)
          []
          events
        ≡ recorded_in state deltas [] events
  unfolding get
  recorded-clear_included state deltas events =
      rw
        (sum_where-remove_all (total μ channel) (λ j. true) (keys state.included_deltas) deltas
          ∙ sum_where-cong (total μ channel)
              (λ j. if listed j (keys state.included_deltas) then false else true)
              (absent state.included_deltas) deltas
              (λ j. ground (arith, listed-keys j state.included_deltas)))
        refl

  -- What `compact` adds to the channels.
  total-include_deltas :
      (before included : List (String × Unit {0})) (deltas : List (String × Totals))
      (channels : Totals)
      → total μ channel (include_deltas before deltas channels included).0
        ≡ saturating_add
            (total μ channel channels)
            (sum_where (total μ channel) (absent before) deltas)
  unfolding include_deltas saturating_add
  total-include_deltas before included [] channels =
      omega (arith, sum_at-le (value μ) channel channels)
  total-include_deltas before included ((id, delta) ∷ deltas) channels = ground (
    arith,
    total-include_deltas before included deltas channels,
    total-include_deltas before (insert id tt included) deltas (merge_stats channels delta),
    total-merge_stats μ channel channels delta,
  )

  -- What a reader is told.
  total-merge_deltas :
      (included : List (String × Unit {0})) (deltas : List (String × Totals)) (channels : Totals)
      → total μ channel (merge_deltas included deltas channels)
        ≡ saturating_add
            (total μ channel channels)
            (sum_where (total μ channel) (absent included) deltas)
  unfolding merge_deltas saturating_add
  total-merge_deltas included [] channels = omega (arith, sum_at-le (value μ) channel channels)
  total-merge_deltas included ((id, delta) ∷ deltas) channels = ground (
    arith,
    total-merge_deltas included deltas channels,
    total-merge_deltas included deltas (merge_stats channels delta),
    total-merge_stats μ channel channels delta,
  )

  -- The totals that are told and the events that wait are all that is recorded.
  pub recorded-current_totals :
      (w : StatsActor)
      → w.processing ≡ []
      → recorded w
        ≡ saturating_add (total μ channel (current_totals w)) (sum_files μ channel w.events)
  unfolding current_totals saturating_add
  recorded-current_totals w e = ground (
    arith,
    total-merge_deltas (rollup_state w).included_deltas w.deltas (rollup_state w).channels,
    ap (sum_batches w.deltas) e,
    sum_files-le μ channel w.events,
  )

  -- The rollup of a compaction is written.
  pub recorded-commit :
      (state : RollupState) (deltas : List (String × Totals)) (events : EventFiles)
      → state.included_deltas ≡ []
      → let taken = include_deltas state.included_deltas deltas state.channels [] in
        recorded_in
          (record {
            channels = taken.0;
            included_deltas = extend state.included_deltas (keys taken.1);
          })
          deltas
          []
          events
        ≡ recorded_in state deltas [] events
  unfolding saturating_add
  recorded-commit state deltas events i = ground (
    arith,
    total-include_deltas state.included_deltas [] deltas state.channels,
    sum_where-none (total μ channel)
        (absent (
          extend state.included_deltas
            (keys (include_deltas state.included_deltas deltas state.channels []).1)))
        deltas
        (λ k e. ground (
          arith,
          get-extend k (keys (include_deltas state.included_deltas deltas state.channels []).1)
              state.included_deltas,
          listed-keys k (include_deltas state.included_deltas deltas state.channels []).1,
          get-include_deltas k state.included_deltas deltas state.channels [] i,
        )),
  )
