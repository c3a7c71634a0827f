-- ===== src/Stats/Batches.antt =====
-- `process_batch` of src/stats.rs: where it stops and where it ends.
use update_delivery_system.Prelude.{
  ℕ, ◌≡◌, refl, sym, ◌∙◌, ap, String, true, false, Option, none, some, is_some, [], ◌∷◌, ◌++◌,
  arith, eq_iff, length,
}
use update_delivery_system.Prelude.Words.{saturating_add}
use update_delivery_system.Prelude.BTreeMap.{get, insert, remove, get-insert}
use update_delivery_system.Prelude.BTreeMap.Keys.{text_ord}
use mathlib.Core.List.{append-nil, append_assoc}
use update_delivery_system.Stats.{StatsEvent, Totals, apply_event}
use update_delivery_system.Stats.Files.{
  EventFiles, StatsActor, Triple, Triple-before, Triple-if, Triple-bind, Triple-change, Triple-pure,
  Triple-gets, ◌>>=◌, pure, change,
}
use update_delivery_system.Stats.Actor.{
  rollup_state, put_batch, without_batch, collect, aggregate_batch, process_batch,
}
use update_delivery_system.Stats.Counters.{Counter, total, total-apply_event}
use update_delivery_system.Stats.Sums.{sum_files, sum_files-le, sum_files-append}
use update_delivery_system.Stats.Recorded.{
  single, recorded, recorded_in, recorded-reject, recorded-write_delta, recorded-remove_batch,
}

-- No batch is left, and no delta is in the rollup already.
abbrev pub Settled : StatsActor → Type 0
Settled w = (w.processing ≡ []) × ((rollup_state w).included_deltas ≡ [])

pub put_batch-single : (id : String) (a b : EventFiles) → put_batch id b (single id a) ≡ single id b
put_batch-single id a b = ground (arith, eq_iff id id)

pub remove-single : (id : String) (a : EventFiles) → remove id (single id a) ≡ []
unfolding remove
remove-single id a = ground (arith, eq_iff id id)

absent_none : {A : Type 0} (o : Option A) → is_some o ≡ false → o ≡ none
absent_none none e = refl
absent_none (some a) e = cc

-- A world whose only batch this is.
pub record Holds (id : String) (files : EventFiles) (w : StatsActor) : Type 0 where
  pub batch : w.processing ≡ single id files
  pub included : (rollup_state w).included_deltas ≡ []

-- Where a computation can stop.
pub data Stop (w : StatsActor) : Type 0 where
  at_rest : w.processing ≡ [] → Stop w
  in_batch : (id : String) (files : EventFiles) → Holds id files w → Stop w

module _ (μ : Counter) (channel : String) (amount : ℕ) where
  abbrev pub Rest : StatsActor → Type 0
  Rest w = (recorded μ channel w ≡ amount) × Settled w

  abbrev pub Stopped : StatsActor → Type 0
  Stopped w = (recorded μ channel w ≡ amount) × Stop w

  abbrev pub Batch : String → EventFiles → StatsActor → Type 0
  Batch id files w = (recorded μ channel w ≡ amount) × Holds id files w

  -- As `Batch`, and the batch has no delta.
  abbrev pub Open : String → EventFiles → StatsActor → Type 0
  Open id files w = Batch id files w × (get id w.deltas ≡ none)

  abbrev Collected : String → Totals → StatsActor → Type 0
  Collected id delta w =
      (files : EventFiles) × (Open id files w × (total μ channel delta ≡ sum_files μ channel files))

  pub stop-Batch :
      (id : String) (files : EventFiles) (w : StatsActor) → Batch id files w → Stopped w
  stop-Batch id files w (r, h) = (r, in_batch id files h)

  -- The records of a world whose batch is known.
  pub recorded-Batch :
      (w : StatsActor) (id : String) (files : EventFiles)
      → Batch id files w
      → recorded_in μ channel (rollup_state w) w.deltas (single id files) w.events ≡ amount
  recorded-Batch w id files (r, h) =
      ap (λ b. recorded_in μ channel (rollup_state w) w.deltas b w.events) (sym h.batch) ∙ r

  reject-Open :
      (id name : String) (kept files : EventFiles) (w : StatsActor)
      → Open id (kept ++ (name, none) ∷ files) w
      → Open id (kept ++ files) (record w {
        processing = put_batch id (kept ++ files) w.processing;
        rejected = insert name none w.rejected;
      })
  reject-Open id name kept files w ((r, h), fresh) = (
    (
      ap (λ b. recorded_in μ channel (rollup_state w) w.deltas b w.events) placed
          ∙ sym (recorded-reject μ channel (rollup_state w) w.deltas id name kept files w.events)
          ∙ recorded-Batch w id (kept ++ (name, none) ∷ files) (r, h),
      record { batch = placed; included = h.included },
    ),
    fresh,
  )
    where
      placed : put_batch id (kept ++ files) w.processing ≡ single id (kept ++ files)
      placed =
          ap (put_batch id (kept ++ files)) h.batch
          ∙ put_batch-single id (kept ++ (name, none) ∷ files) (kept ++ files)

  collected_event :
      (delta : Totals) (kept : EventFiles) (name : String) (e : StatsEvent)
      → total μ channel delta ≡ sum_files μ channel kept
      → total μ channel (apply_event delta e) ≡ sum_files μ channel (kept ++ (name, some e) ∷ [])
  collected_event delta kept name e t =
      total-apply_event μ channel delta e
      ∙ unfold saturating_add in
        omega (
          arith,
          sum_files-append μ channel kept ((name, some e) ∷ []),
          sum_files-le μ channel kept,
        )

  Triple-collect :
      (id : String) (kept files : EventFiles) (delta : Totals)
      → Triple
          (λ w. Open id (kept ++ files) w × (total μ channel delta ≡ sum_files μ channel kept))
          (collect id kept files delta)
          (Collected id)
          Stopped
  unfolding collect
  Triple-collect id kept [] delta =
      Triple-pure delta (λ w p. (kept, (rw (sym (append-nil kept)) p.0, p.1)))
  Triple-collect id kept ((name, some e) ∷ files) delta =
      Triple-before _ (Triple-collect id (kept ++ (name, some e) ∷ []) files (apply_event delta e))
        (λ w p. (
          rw (append_assoc kept ((name, some e) ∷ []) files) p.0,
          collected_event delta kept name e p.1,
        ))
  Triple-collect id kept ((name, none) ∷ files) delta =
      Triple-bind
        (λ _ w. Open id (kept ++ files) w × (total μ channel delta ≡ sum_files μ channel kept)) _ _
        (Triple-change _ (λ w p. stop-Batch id (kept ++ (name, none) ∷ files) w p.0.0)
          (λ w p. (reject-Open id name kept files w p.0, p.1)))
        (λ _. Triple-collect id kept files delta)

  -- The batch has a delta.
  abbrev Counted : String → EventFiles → StatsActor → Type 0
  Counted id files w = Batch id files w × (is_some (get id w.deltas) ≡ true)

  remove-Rest :
      (id : String) (files : EventFiles) (w : StatsActor)
      → Counted id files w
      → Rest (without_batch id w)
  remove-Rest id files w ((r, h), k) = (
    ap (λ b. recorded_in μ channel (rollup_state w) w.deltas b w.events) gone
        ∙ sym (recorded-remove_batch μ channel (rollup_state w) w.deltas id files w.events k)
        ∙ recorded-Batch w id files (r, h),
    (gone, h.included),
  )
    where
      gone : remove id w.processing ≡ []
      gone = ap (remove id) h.batch ∙ remove-single id files

  write-Counted :
      (id : String) (delta : Totals) (w : StatsActor)
      → Collected id delta w
      → (files : EventFiles) × Counted id files (record w { deltas = insert id delta w.deltas })
  write-Counted id delta w (files, (((r, h), fresh), t)) = (
    files,
    (
      (
        ap (λ b. recorded_in μ channel (rollup_state w) (insert id delta w.deltas) b w.events)
              h.batch
            ∙ recorded-write_delta μ channel (rollup_state w) w.deltas id delta files w.events fresh
                h.included t
            ∙ recorded-Batch w id files (r, h),
        record { batch = h.batch; included = h.included },
      ),
      ground (arith, get-insert id id delta w.deltas, eq_iff id id),
    ),
  )

  Triple-remove_batch :
      (id : String) (n : ℕ)
      → Triple
          (λ w. (files : EventFiles) × Counted id files w)
          (change (without_batch id) >>= λ _. pure n)
          (λ _. Rest)
          Stopped
  Triple-remove_batch id n =
      Triple-bind (λ _. Rest) _ _
        (Triple-change _ (λ w (files, c). stop-Batch id files w c.0)
          (λ w (files, c). remove-Rest id files w c))
        (λ _. Triple-pure _ (λ w p. p))

  Triple-aggregate_batch :
      (id : String) (files : EventFiles)
      → Triple (Open id files) (aggregate_batch id files) (λ _. Rest) Stopped
  unfolding aggregate_batch
  Triple-aggregate_batch id files =
      Triple-bind (Collected id) _ _
        (Triple-before _ (Triple-collect id [] files []) (λ w p. (p, refl)))
        (λ delta.
          Triple-bind (λ _ w. (files : EventFiles) × Counted id files w) _ _
            (Triple-change _ (λ w (kept, c). stop-Batch id kept w c.0.0) (write-Counted id delta))
            (λ _. Triple-remove_batch id (length files)))

  -- From a batch, `process_batch` ends with no batch, and stops without losing a count.
  pub Triple-process_batch :
      (id : String) (files : EventFiles)
      → Triple (Batch id files) (process_batch id files) (λ _. Rest) Stopped
  unfolding process_batch
  Triple-process_batch id files =
      Triple-bind (λ known w. Batch id files w × (is_some (get id w.deltas) ≡ known)) _ _
        (Triple-gets _ (λ w p. (p, refl)))
        (λ known.
          Triple-if known _ _
            (λ e.
              Triple-before _ (Triple-remove_batch id (length files))
                (λ w p. (files, (p.0, p.1 ∙ e))))
            (λ e.
              Triple-before _ (Triple-aggregate_batch id files)
                (λ w p. (p.0, absent_none (get id w.deltas) (p.1 ∙ e)))))
