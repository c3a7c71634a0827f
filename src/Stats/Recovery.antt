-- ===== src/Stats/Recovery.antt =====
-- Restarts of `StatsActor` of src/stats.rs: no stop loses a count or counts twice.
use mathlib.Core.Path.{◌≡◌, refl, sym, ap, ◌∙◌}
use update_delivery_system.Prelude.{ℕ, String, Bool, false, none, List, [], ◌∷◌, length}
use update_delivery_system.Prelude.BTreeMap.{get}
use update_delivery_system.Prelude.BTreeMap.Keys.{text_ord}
use update_delivery_system.Stats.Files.{
  EventFiles, StatsActor, Triple, Triple-before, Triple-none, Triple-bind, Triple-change,
  Triple-modify, Triple-pure, Triple-gets,
}
use update_delivery_system.Stats.Actor.{
  rollup_state, settle, recover, recover_processing, new_actor, roll_up, rollup_events,
}
use update_delivery_system.Stats.Counters.{Counter}
use update_delivery_system.Stats.Recorded.{single, recorded_in, recorded-make_batch}
use update_delivery_system.Stats.Batches.{
  Holds, Stop, at_rest, in_batch, Rest, Stopped, Open, Triple-process_batch,
}
use update_delivery_system.Stats.Moves.{Triple-move_events}
use update_delivery_system.Stats.Commit.{Triple-compact_if_needed}
use update_delivery_system.Stats.Compaction.{Compacted, Triple-finish_interrupted_compaction}

module _ (μ : Counter) (channel : String) (amount : ℕ) where
  make-Open :
      (id : String) (w : StatsActor)
      → Rest μ channel amount w
      → get id w.deltas ≡ none
      → Open μ channel amount id [] (record w { processing = (id, []) ∷ w.processing })
  make-Open id w (r, (p, i)) fresh = (
    (
      ap (λ b. recorded_in μ channel (rollup_state w) w.deltas ((id, []) ∷ b) w.events) p
          ∙ recorded-make_batch μ channel (rollup_state w) w.deltas id w.events
          ∙ ap (λ b. recorded_in μ channel (rollup_state w) w.deltas b w.events) (sym p)
          ∙ r,
      record { batch = ap (λ b. (id, []) ∷ b) p; included = i },
    ),
    fresh,
  )

  stop-Rest : (w : StatsActor) → Rest μ channel amount w → Stopped μ channel amount w
  stop-Rest w (r, (p, i)) = (r, at_rest p)

  Triple-roll_up :
      (moves : String → Bool) (id : String) (files : EventFiles)
      → Triple
          (λ w. (Rest μ channel amount w × (get id w.deltas ≡ none)) × (w.events ≡ files))
          (roll_up moves id files)
          (λ _. Rest μ channel amount)
          (Stopped μ channel amount)
  unfolding roll_up
  Triple-roll_up moves id [] =
      Triple-before _ (Triple-compact_if_needed μ channel amount) (λ w p. p.0.0)
  Triple-roll_up moves id (file ∷ files) =
      Triple-bind (λ _ w. Open μ channel amount id [] w × (w.events ≡ file ∷ files)) _ _
        (Triple-change _ (λ w p. stop-Rest w p.0.0) (λ w p. (make-Open id w p.0.0 p.0.1, p.1)))
        (λ _.
          Triple-bind (Open μ channel amount id) _ _
            (Triple-move_events μ channel amount moves id [] [] (file ∷ files))
            (λ batch.
              Triple-bind (λ _. Rest μ channel amount) _ _
                (Triple-before _ (Triple-process_batch μ channel amount id batch) (λ w p. p.0))
                (λ processed.
                  Triple-bind (λ _. Rest μ channel amount) _ _
                    (Triple-modify (settle processed) (λ w p. p))
                    (λ _. Triple-compact_if_needed μ channel amount))))

  pub Triple-rollup_events :
      (moves : String → Bool) (id : String)
      → Triple
          (λ w. Rest μ channel amount w × (get id w.deltas ≡ none))
          (rollup_events moves id)
          (λ _. Rest μ channel amount)
          (Stopped μ channel amount)
  unfolding rollup_events
  Triple-rollup_events moves id =
      Triple-bind
        (λ files w. (Rest μ channel amount w × (get id w.deltas ≡ none)) × (w.events ≡ files)) _ _
        (Triple-gets _ (λ w p. (p, refl))) (Triple-roll_up moves id)

  Triple-recover :
      (batches : List (String × EventFiles))
      → Triple
          (λ w. Stopped μ channel amount w × (w.processing ≡ batches))
          (recover batches)
          (λ _. Compacted μ channel amount)
          (Stopped μ channel amount)
  unfolding recover
  Triple-recover [] = Triple-pure tt (λ w p. (p.0.0, p.1))
  Triple-recover ((id, files) ∷ []) =
      Triple-bind (λ _. Rest μ channel amount) _ _
        (Triple-before _ (Triple-process_batch μ channel amount id files)
          (λ w p. (p.0.0, held w p.0.1 p.1)))
        (λ count.
          Triple-bind (λ _. Rest μ channel amount) _ _ (Triple-modify (settle count) (λ w p. p))
            (λ _. Triple-pure tt (λ w p. (p.0, p.1.0))))
    where
      held : (w : StatsActor) → Stop w → w.processing ≡ single id files → Holds id files w
      held w (at_rest p) e = cc
      held w (in_batch id' files' h) e = record { batch = e; included = h.included }
  Triple-recover (a ∷ b ∷ batches) = Triple-before _ (Triple-none _) (λ w p. many w p.0.1 p.1)
    where
      many : (w : StatsActor) → Stop w → w.processing ≡ a ∷ b ∷ batches → ⊥
      many w (at_rest p) e = cc
      many w (in_batch id files h) e = cc

  Triple-recover_processing :
      Triple
        (Stopped μ channel amount)
        recover_processing
        (λ _. Compacted μ channel amount)
        (Stopped μ channel amount)
  unfolding recover_processing
  Triple-recover_processing =
      Triple-bind (λ batches w. Stopped μ channel amount w × (w.processing ≡ batches)) _ _
        (Triple-gets _ (λ w p. (p, refl))) Triple-recover

  keep-Stop :
      (n : ℕ) (w : StatsActor) → Stop w → Stop (record w { pending_events = n; dropping = false })
  keep-Stop n w (at_rest p) = at_rest p
  keep-Stop n w (in_batch id files h) =
      in_batch id files (record { batch = h.batch; included = h.included })

  -- From wherever a rollup, or a restart, has stopped, a restart ends at rest with what was recorded.
  pub Triple-new_actor :
      Triple
        (Stopped μ channel amount)
        new_actor
        (λ _. Rest μ channel amount)
        (Stopped μ channel amount)
  unfolding new_actor
  Triple-new_actor =
      Triple-bind (λ _. Stopped μ channel amount) _ _
        (Triple-modify _ (λ w p. (p.0, keep-Stop (length w.events) w p.1)))
        (λ _.
          Triple-bind (λ _. Compacted μ channel amount) _ _ Triple-recover_processing
            (λ _. Triple-finish_interrupted_compaction μ channel amount))
