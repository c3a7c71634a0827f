-- ===== src/Stats/Persistence.antt =====
-- `persist_event` of src/stats.rs: an accepted event counts once.
use mathlib.Core.Path.{◌≡◌, refl, ap}
use update_delivery_system.Prelude.{
  ℕ, String, Bool, true, false, Option, none, some, is_some, List, [], ◌∷◌, arith, if◌then◌else◌,
}
use update_delivery_system.Prelude.Words.{saturating_add}
use update_delivery_system.Prelude.BTreeMap.{get}
use update_delivery_system.Prelude.BTreeMap.Keys.{text_ord}
use update_delivery_system.Stats.Files.{
  StatsActor, Supply, unlimited, Triple, Triple-before, Triple-none, Triple-if, Triple-bind,
  Triple-change, Triple-modify, Triple-pure, Triple-gets, Post, ◌>>=◌, change,
}
use update_delivery_system.Stats.Actor.{new_actor}
use update_delivery_system.Stats.Counters.{Counter}
use update_delivery_system.Stats.Recorded.{recorded-current_totals}
use update_delivery_system.Stats.Batches.{Settled, at_rest, Rest, Stopped}
use update_delivery_system.Stats.Recovery.{Triple-rollup_events}
use update_delivery_system.Stats.{StatsEvent}
use update_delivery_system.Stats.Counters.{weight}
use update_delivery_system.Stats.Files.{StatsConfig, Triple-stop, Triple-none}
use update_delivery_system.Stats.Sums.{sum_files-append, sum_files-le}
use update_delivery_system.Stats.Actor.{record_written, persist_event}
use update_delivery_system.Stats.Restarts.{served, restarted, ended, restart_lem}
use update_delivery_system.Prelude.{◌&&◌, not, ◌⊎◌, inl, inr, leb, ◌++◌}

-- Whether `persist_event` accepts an event.
abbrev pub accepts : Bool → StatsConfig → StatsActor → Bool
accepts written config w = not (leb config.max_pending_events w.pending_events) && written

module _ (μ : Counter) (channel : String) (amount : ℕ) (moves : String → Bool) (id name : String)
    (written : Bool) (config : StatsConfig) (e : StatsEvent) where
  abbrev counted : ℕ
  counted = saturating_add amount (weight μ channel e)

  abbrev Ready : StatsActor → Type 0
  Ready w = Rest μ channel amount w × (get id w.deltas ≡ none)

  abbrev Either : StatsActor → Type 0
  Either w = Stopped μ channel amount w ⊎ Stopped μ channel counted w

  written-Rest :
      (w : StatsActor)
      → Ready w
      → Rest μ channel counted (record w { events = w.events ++ (name, some e) ∷ [] })
        × (get id w.deltas ≡ none)
  unfolding saturating_add
  written-Rest w ((r, settled), fresh) = (
    (
      omega (
        arith,
        r,
        sum_files-append μ channel w.events ((name, some e) ∷ []),
        sum_files-le μ channel w.events,
      ),
      settled,
    ),
    fresh,
  )

  Triple-record_written :
      Triple
        (λ w. Rest μ channel counted w × (get id w.deltas ≡ none))
        (record_written moves id config)
        (λ _. Rest μ channel counted)
        (Stopped μ channel counted)
  unfolding record_written
  Triple-record_written =
      Triple-bind (λ _ w. Rest μ channel counted w × (get id w.deltas ≡ none)) _ _
        (Triple-modify _ (λ w p. p))
        (λ _.
          Triple-bind (λ _ w. Rest μ channel counted w × (get id w.deltas ≡ none)) _ _
            (Triple-gets _ (λ w p. p))
            (λ pending.
              Triple-if (leb config.rollup_trigger_events pending) _ _
                (λ _. Triple-rollup_events μ channel counted moves id)
                (λ _. Triple-pure tt (λ w p. p.0))))

  Triple-accepted :
      Triple Ready
        (do
          _ ← change (λ w. record w { events = w.events ++ (name, some e) ∷ [] })
          record_written moves id config)
        (λ _. Rest μ channel counted)
        Either
  Triple-accepted =
      Triple-bind (λ _ w. Rest μ channel counted w × (get id w.deltas ≡ none)) _ _
        (Triple-change _ (λ w p. inl (p.0.0, at_rest p.0.1.0)) written-Rest)
        (λ _. Triple-stop (Stopped μ channel counted) Either _ Triple-record_written (λ w p. inr p))

  abbrev Reads : Bool → ℕ → StatsActor → Type 0
  Reads accepted pending w =
      Ready w × (accepts written config w ≡ accepted) × (w.pending_events ≡ pending)

  Triple-persist_event :
      (accepted : Bool)
      → Triple
          (λ w. Ready w × (accepts written config w ≡ accepted))
          (persist_event moves id name written config e)
          (λ _. Rest μ channel (if accepted then counted else amount))
          Either
  unfolding persist_event
  Triple-persist_event true =
      Triple-bind (λ pending w. Reads true pending w) _ _ (Triple-gets _ (λ w p. (p.0, p.1, refl)))
        (λ pending.
          Triple-if (leb config.max_pending_events pending) _ _
            (λ full. Triple-before _ (Triple-none _) (λ w p. refuses w pending p (inl full)))
            (λ _.
              Triple-if written _ _ (λ _. Triple-before _ Triple-accepted (λ w p. p.0))
                (λ unwritten.
                  Triple-before _ (Triple-none _) (λ w p. refuses w pending p (inr unwritten)))))
    where
      refuses :
          (w : StatsActor) (pending : ℕ)
          → Reads true pending w
          → (leb config.max_pending_events pending ≡ true) ⊎ (written ≡ false)
          → ⊥
      refuses w pending (r, a, e) (inl full) = ground (arith, ap (leb config.max_pending_events) e)
      refuses w pending (r, a, e) (inr unwritten) = ground arith
  Triple-persist_event false =
      Triple-bind (λ pending w. Reads false pending w) _ _ (Triple-gets _ (λ w p. (p.0, p.1, refl)))
        (λ pending.
          Triple-if (leb config.max_pending_events pending) _ _
            (λ _. Triple-modify _ (λ w p. p.0.0))
            (λ room.
              Triple-if written _ _
                (λ is_written.
                  Triple-before _ (Triple-none _) (λ w p. accepted w pending p room is_written))
                (λ _. Triple-modify _ (λ w p. p.0.0))))
    where
      accepted :
          (w : StatsActor) (pending : ℕ)
          → Reads false pending w
          → leb config.max_pending_events pending ≡ false
          → written ≡ true
          → ⊥
      accepted w pending (r, a, e) room is_written =
          ground (arith, ap (leb config.max_pending_events) e)

restart_either :
    (μ : Counter) (channel : String) (a b : ℕ) (stops : List Supply) (w : StatsActor)
    → Stopped μ channel a w ⊎ Stopped μ channel b w
    → let last = new_actor unlimited (restarted stops w) in
      (is_some last.0 ≡ true) × ((served μ channel last.1 ≡ a) ⊎ (served μ channel last.1 ≡ b))
restart_either μ channel a b stops w (inl p) =
    let l = restart_lem μ channel a stops w p in (l.0, inl l.2)
restart_either μ channel a b stops w (inr p) =
    let l = restart_lem μ channel b stops w p in (l.0, inr l.2)

start :
    (μ : Counter) (channel id : String) (w : StatsActor)
    → Settled w
    → get id w.deltas ≡ none
    → Rest μ channel (served μ channel w) w × (get id w.deltas ≡ none)
start μ channel id w settled fresh =
    ((recorded-current_totals μ channel w settled.0, settled), fresh)

-- From a settled directory, and with an identifier that no delta has, recording an event ends if no
-- change of the file system fails; the directory is settled again, and each counter of each channel,
-- with the events that wait, is served with the weight of the event added when the limit of pending
-- events leaves room and the file is written, and as before otherwise, also when the event triggers a
-- rollup and a compaction.
pub persist_event_counts :
    (μ : Counter) (channel : String) (moves : String → Bool) (id name : String) (written : Bool)
    (config : StatsConfig) (e : StatsEvent) (w : StatsActor)
    → Settled w
    → get id w.deltas ≡ none
    → let last = persist_event moves id name written config e unlimited w in
      (is_some last.0 ≡ true)
      × Settled last.1
      × (served μ channel last.1 ≡ (
          if accepts written config w
          then saturating_add (served μ channel w) (weight μ channel e)
          else served μ channel w))
persist_event_counts μ channel moves id name written config e w settled fresh =
    ended μ channel _ _ _ _ (
      (Triple-persist_event μ channel (served μ channel w) moves id name written config e
          (accepts written config w)).at
        unlimited w (start μ channel id w settled fresh, refl))

-- From a settled directory, and with an identifier that no delta has, recording an event may be
-- stopped before any change of the file system, and so may each of the restarts that follow. After the
-- first restart that is not stopped, each counter of each channel, with the events that wait, is
-- served either as before or with the weight of the event added once.
pub persist_event_survives_stops :
    (μ : Counter) (channel : String) (moves : String → Bool) (id name : String) (written : Bool)
    (config : StatsConfig) (e : StatsEvent) (w : StatsActor)
    → Settled w
    → get id w.deltas ≡ none
    → (s : Supply) (stops : List Supply)
    → let last =
        new_actor unlimited
          (restarted stops (persist_event moves id name written config e s w).1) in
      (is_some last.0 ≡ true)
      × ((served μ channel last.1 ≡ served μ channel w)
          ⊎ (served μ channel last.1 ≡ saturating_add (served μ channel w) (weight μ channel e)))
persist_event_survives_stops μ channel moves id name written config e w settled fresh s stops =
    restart_either μ channel (served μ channel w) _ stops _ (
      stopped (persist_event moves id name written config e s w).0 _ (accepts written config w) (
        (Triple-persist_event μ channel (served μ channel w) moves id name written config e
            (accepts written config w)).at
          s w (start μ channel id w settled fresh, refl)))
  where
    counted' : ℕ
    counted' = saturating_add (served μ channel w) (weight μ channel e)

    stopped :
        (r : Option (Unit {0} × Supply)) (v : StatsActor) (b : Bool)
        → Post
            (λ _. Rest μ channel (if b then counted' else served μ channel w))
            (Either μ channel (served μ channel w) moves id name written config e)
            s
            r
            v
        → Stopped μ channel (served μ channel w) v ⊎ Stopped μ channel counted' v
    stopped none v b (i, _) = i
    stopped (some a) v true ((r, (p, i)), _) = inr (r, at_rest p)
    stopped (some a) v false ((r, (p, i)), _) = inl (r, at_rest p)
