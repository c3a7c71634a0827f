-- ===== src/Stats/Moves.antt =====
-- The loop of src/stats.rs that moves events into a batch.
use update_delivery_system.Prelude.{ℕ, ◌≡◌, refl, sym, ◌∙◌, ap, String, Bool, Option, [], ◌∷◌, ◌++◌}
use update_delivery_system.Prelude.BTreeMap.Keys.{text_ord}
use mathlib.Core.List.{append_assoc}
use update_delivery_system.Stats.{StatsEvent}
use update_delivery_system.Stats.Files.{
  EventFiles, StatsActor, Triple, Triple-before, Triple-if, Triple-bind, Triple-change, Triple-pure,
}
use update_delivery_system.Stats.Actor.{rollup_state, put_batch, move_events}
use update_delivery_system.Stats.Counters.{Counter}
use update_delivery_system.Stats.Recorded.{single, recorded_in, recorded-move}
use update_delivery_system.Stats.Batches.{
  put_batch-single, Stopped, Open, stop-Batch, recorded-Batch,
}

module _ (μ : Counter) (channel : String) (amount : ℕ) where
  move-Open :
      (id name : String) (content : Option StatsEvent) (stayed moved files : EventFiles)
      (w : StatsActor)
      → Open μ channel amount id moved w × (w.events ≡ stayed ++ (name, content) ∷ files)
      → Open μ channel amount id (moved ++ (name, content) ∷ []) (record w {
        events = stayed ++ files;
        processing = put_batch id (moved ++ (name, content) ∷ []) w.processing;
      })
  move-Open id name content stayed moved files w (((r, h), fresh), e) = (
    (
      ap (λ b. recorded_in μ channel (rollup_state w) w.deltas b (stayed ++ files)) placed
          ∙ recorded-move μ channel (rollup_state w) w.deltas id name content stayed moved files
              fresh
          ∙ ap (recorded_in μ channel (rollup_state w) w.deltas (single id moved)) (sym e)
          ∙ recorded-Batch μ channel amount w id moved (r, h),
      record { batch = placed; included = h.included },
    ),
    fresh,
  )
    where
      placed :
          put_batch id (moved ++ (name, content) ∷ []) w.processing
          ≡ single id (moved ++ (name, content) ∷ [])
      placed =
          ap (put_batch id (moved ++ (name, content) ∷ [])) h.batch
          ∙ put_batch-single id moved (moved ++ (name, content) ∷ [])

  -- The loop that fills a batch ends with the listing of the batch.
  pub Triple-move_events :
      (moves : String → Bool) (id : String) (stayed moved files : EventFiles)
      → Triple
          (λ w. Open μ channel amount id moved w × (w.events ≡ stayed ++ files))
          (move_events moves id stayed moved files)
          (λ batch w. Open μ channel amount id batch w)
          (Stopped μ channel amount)
  unfolding move_events
  Triple-move_events moves id stayed moved [] = Triple-pure moved (λ w p. p.0)
  Triple-move_events moves id stayed moved ((name, content) ∷ files) =
      Triple-if (moves name) _ _
        (λ _.
          Triple-bind
            (λ _ w.
              Open μ channel amount id (moved ++ (name, content) ∷ []) w
              × (w.events ≡ stayed ++ files))
            _ _
            (Triple-change _ (λ w p. stop-Batch μ channel amount id moved w p.0.0)
              (λ w p. (move-Open id name content stayed moved files w p, refl)))
            (λ _. Triple-move_events moves id stayed (moved ++ (name, content) ∷ []) files))
        (λ _.
          Triple-before _ (Triple-move_events moves id (stayed ++ (name, content) ∷ []) moved files)
            (λ w p. (p.0, p.1 ∙ sym (append_assoc stayed ((name, content) ∷ []) files))))
