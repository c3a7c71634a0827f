-- ===== src/Stats/Restarts.antt =====
-- Restarts of `StatsActor` of src/stats.rs after a rollup that was stopped, or was not.
use mathlib.Core.Path.{◌≡◌, refl, sym, ◌∙◌}
use update_delivery_system.Prelude.{
  ℕ, String, Bool, true, Option, none, some, is_some, List, [], ◌∷◌,
}
use update_delivery_system.Prelude.Words.{saturating_add}
use update_delivery_system.Prelude.BTreeMap.{get}
use update_delivery_system.Prelude.BTreeMap.Keys.{text_ord}
use update_delivery_system.Stats.Files.{StatsActor, Supply, unlimited, Post}
use update_delivery_system.Stats.Actor.{new_actor, rollup_events, current_totals}
use update_delivery_system.Stats.Counters.{Counter, total}
use update_delivery_system.Stats.Sums.{sum_files}
use update_delivery_system.Stats.Recorded.{recorded-current_totals}
use update_delivery_system.Stats.Batches.{Settled, at_rest, Rest, Stopped}
use update_delivery_system.Stats.Recovery.{Triple-new_actor, Triple-rollup_events}

-- The restarts that stop as these supplies say.
abbrev pub restarted : List Supply → StatsActor → StatsActor
restarted [] w = w
restarted (s ∷ stops) w = restarted stops (new_actor s w).1

-- What a reader of the totals is told of a counter, with what the waiting events will add.
abbrev pub served : Counter → String → StatsActor → ℕ
served μ channel w =
    saturating_add (total μ channel (current_totals w)) (sum_files μ channel w.events)

module _ (μ : Counter) (channel : String) (amount : ℕ) where
  pub Stopped-ended :
      {A : Type 0} (s : Supply) (r : Option (A × Supply)) (w : StatsActor)
      → Post (λ _. Rest μ channel amount) (Stopped μ channel amount) s r w
      → Stopped μ channel amount w
  Stopped-ended s none w (i, _) = i
  Stopped-ended s (some (a, s')) w ((r, (p, i)), _) = (r, at_rest p)

  pub Stopped-restarted :
      (stops : List Supply) (w : StatsActor)
      → Stopped μ channel amount w
      → Stopped μ channel amount (restarted stops w)
  Stopped-restarted [] w p = p
  Stopped-restarted (s ∷ stops) w p = Stopped-restarted stops (new_actor s w).1 (
      Stopped-ended s (new_actor s w).0 (new_actor s w).1
        ((Triple-new_actor μ channel amount).at s w p))

  pub served-Rest : (w : StatsActor) → Rest μ channel amount w → served μ channel w ≡ amount
  served-Rest w (r, (p, i)) = sym (recorded-current_totals μ channel w p) ∙ r

  pub ended :
      {A : Type 0} (I : StatsActor → Type 0) (r : Option (A × Supply)) (w : StatsActor)
      → Post (λ _. Rest μ channel amount) I unlimited r w
      → (is_some r ≡ true) × Settled w × (served μ channel w ≡ amount)
  ended I none w (i, stopped) = elim (stopped refl) [ ]
  ended I (some (a, s')) w (p, _) = (refl, p.1, served-Rest w p)

  -- A restart that is not stopped ends, whatever restarts were stopped before it.
  pub restart_lem :
      (stops : List Supply) (w : StatsActor)
      → Stopped μ channel amount w
      → let last = new_actor unlimited (restarted stops w) in
        (is_some last.0 ≡ true) × Settled last.1 × (served μ channel last.1 ≡ amount)
  restart_lem stops w p = ended _ _ _ (
      (Triple-new_actor μ channel amount).at unlimited (restarted stops w)
        (Stopped-restarted stops w p))

-- From a settled directory, and with an identifier that no delta has, a rollup may be stopped before
-- any change of the file system, and so may each of the restarts that follow. The first restart that
-- is not stopped ends, leaves a settled directory, and there each counter of each channel, with the
-- events that wait, is served as before the rollup: nothing is lost and nothing is counted twice.
pub rollup_survives_stops :
    (μ : Counter) (channel : String) (moves : String → Bool) (id : String) (w : StatsActor)
    → Settled w
    → get id w.deltas ≡ none
    → (s : Supply) (stops : List Supply)
    → let last = new_actor unlimited (restarted stops (rollup_events moves id s w).1) in
      (is_some last.0 ≡ true) × Settled last.1 × (served μ channel last.1 ≡ served μ channel w)
rollup_survives_stops μ channel moves id w settled fresh s stops =
    restart_lem μ channel (served μ channel w) stops (rollup_events moves id s w).1 (
      Stopped-ended μ channel (served μ channel w) s _ _ (
        (Triple-rollup_events μ channel (served μ channel w) moves id).at s w
          ((recorded-current_totals μ channel w settled.0, settled), fresh)))

-- A rollup that is not stopped ends, and it changes no counter that is served, with the events that
-- wait, whichever files it could move.
pub rollup_keeps_served :
    (μ : Counter) (channel : String) (moves : String → Bool) (id : String) (w : StatsActor)
    → Settled w
    → get id w.deltas ≡ none
    → let last = rollup_events moves id unlimited w in
      (is_some last.0 ≡ true) × Settled last.1 × (served μ channel last.1 ≡ served μ channel w)
rollup_keeps_served μ channel moves id w settled fresh =
    ended μ channel (served μ channel w) _ _ _ (
      (Triple-rollup_events μ channel (served μ channel w) moves id).at unlimited w
        ((recorded-current_totals μ channel w settled.0, settled), fresh))
