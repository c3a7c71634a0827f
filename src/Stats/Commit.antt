-- ===== src/Stats/Commit.antt =====
-- `compact` of src/stats.rs: the rollup takes the deltas in.
use mathlib.Core.Path.{◌≡◌, refl, sym, ap, ◌∙◌}
use update_delivery_system.Prelude.{ℕ, String, List, [], ◌∷◌, ltb}
use update_delivery_system.Prelude.BTreeMap.{keys}
use update_delivery_system.Prelude.BTreeMap.Keys.{text_ord}
use update_delivery_system.Stats.{Totals}
use update_delivery_system.Stats.Files.{
  RollupState, StatsActor, Triple, Triple-if, Triple-bind, Triple-change, Triple-pure, Triple-gets,
}
use update_delivery_system.Stats.Actor.{
  rollup_state, include_deltas, extend, commit_included, compact, compact_if_needed,
}
use update_delivery_system.Stats.Counters.{Counter}
use update_delivery_system.Stats.Recorded.{recorded_in, recorded-commit}
use update_delivery_system.Stats.Batches.{Rest, Stopped}
use update_delivery_system.Stats.Compaction.{
  Compacted, stop-Compacted, Triple-finish_interrupted_compaction,
}

module _ (μ : Counter) (channel : String) (amount : ℕ) where
  -- `taken` may become the rollup.
  abbrev Committing : RollupState → Totals × List (String × Unit {0}) → StatsActor → Type 0
  Committing state taken w =
      Rest μ channel amount w
      × (recorded_in μ channel
            (record {
              channels = taken.0;
              included_deltas = extend state.included_deltas (keys taken.1);
            })
            w.deltas w.processing w.events
          ≡ amount)

  Triple-commit_included :
      (state : RollupState) (taken : Totals × List (String × Unit {0}))
      → Triple
          (Committing state taken)
          (commit_included state taken)
          (λ _. Rest μ channel amount)
          (Stopped μ channel amount)
  unfolding commit_included
  Triple-commit_included state (channels, []) = Triple-pure tt (λ w p. p.0)
  Triple-commit_included state (channels, i ∷ included) =
      Triple-bind (λ _. Compacted μ channel amount) _ _
        (Triple-change _ (λ w p. stop-Compacted μ channel amount w (p.0.0, p.0.1.0))
          (λ w p. (p.1, p.0.1.0)))
        (λ _. Triple-finish_interrupted_compaction μ channel amount)

  Committing-include_deltas :
      (w : StatsActor)
      → Rest μ channel amount w
      → Committing
          (rollup_state w)
          (include_deltas (rollup_state w).included_deltas w.deltas (rollup_state w).channels [])
          w
  Committing-include_deltas w (r, (p, i)) = (
    (r, (p, i)),
    ap
          (λ b.
            recorded_in μ channel
              (record {
                channels =
                    (include_deltas (rollup_state w).included_deltas w.deltas
                      (rollup_state w).channels []).0;
                included_deltas = extend (rollup_state w).included_deltas (
                    keys
                      (include_deltas (rollup_state w).included_deltas w.deltas
                        (rollup_state w).channels []).1);
              })
              w.deltas b w.events)
          p
        ∙ recorded-commit μ channel (rollup_state w) w.deltas w.events i
        ∙ ap (λ b. recorded_in μ channel (rollup_state w) w.deltas b w.events) (sym p)
        ∙ r,
  )

  Triple-compact :
      Triple (Rest μ channel amount) compact (λ _. Rest μ channel amount) (Stopped μ channel amount)
  unfolding compact
  Triple-compact =
      Triple-bind (λ state w. Rest μ channel amount w × (rollup_state w ≡ state)) _ _
        (Triple-gets _ (λ w p. (p, refl)))
        (λ state.
          Triple-bind
            (λ deltas.
              Committing state (include_deltas state.included_deltas deltas state.channels []))
            _ _ (Triple-gets _ (λ w p. read state w p.1 p.0))
            (λ deltas. Triple-commit_included state _))
    where
      read :
          (state : RollupState) (w : StatsActor)
          → rollup_state w ≡ state
          → Rest μ channel amount w
          → Committing state (include_deltas state.included_deltas w.deltas state.channels []) w
      read state w e r = rw (sym e) (Committing-include_deltas w r)

  pub Triple-compact_if_needed :
      Triple
        (Rest μ channel amount)
        compact_if_needed
        (λ _. Rest μ channel amount)
        (Stopped μ channel amount)
  unfolding compact_if_needed
  Triple-compact_if_needed =
      Triple-bind (λ _. Rest μ channel amount) _ _ (Triple-gets _ (λ w p. p))
        (λ count.
          Triple-if (ltb count 96) _ _ (λ _. Triple-pure tt (λ w p. p)) (λ _. Triple-compact))
