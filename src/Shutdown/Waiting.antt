-- ===== src/Shutdown/Waiting.antt =====
-- `wait_for_no_transfers` of src/shutdown.rs among other threads. `finish` and `start_transfer` are
-- cut at their locks and atomics, and the threads interleave there.
use update_delivery_system.Prelude.{
  ℕ, suc, ◌+◌, ◌≤◌, ◌<◌, String, ◌≡◌, refl, ap, ◌≢◌, some, List, [], ◌∷◌, length, arith,
  if◌then◌else◌,
}
use update_delivery_system.Prelude.Words.{wrapping_add}
use update_delivery_system.Prelude.BTreeMap.{get, insert, remove}
use update_delivery_system.Prelude.BTreeMap.Keys.{id_ord}
use update_delivery_system.Shutdown.{
  TransferKind, ActiveTransfer, ShutdownState, default, new_transfer, start_transfer, active_count,
  finish, finish_removed,
}

-- Where `wait_for_no_transfers` stands: above `notified()`, below it, at `changed.await`, returned.
-- The number is what the `Notified` future remembers.
pub data Waiter : Type 0 where
  looping : Waiter
  registered awaiting : ℕ → Waiter
  returned : Waiter

module _ {Value : Type 0} where
  unfoldable pub notify_changed : ShutdownState Value → ShutdownState Value
  notify_changed s = record s { changed = s.changed + 1 }

  unfoldable pub count_ended : ActiveTransfer Value → ShutdownState Value → ShutdownState Value
  count_ended t s =
      if t.forced
      then record s { aborted = wrapping_add s.aborted 1 }
      else record s { completed = wrapping_add s.completed 1 }

  -- The parts in sequence are the operation.
  finish_parts :
      (id : ℕ) (t : ActiveTransfer Value) (s : ShutdownState Value)
      → get id s.active ≡ some t
      → finish id s ≡ notify_changed (count_ended t (record s { active = remove id s.active }))
  unfolding finish notify_changed count_ended
  finish_parts id t s h = rw (h, finish_removed) (ground arith)

  start_parts :
      (id : ℕ) (kind : TransferKind) (request : String) (fields : List (String × Value))
      (s : ShutdownState Value)
      → (start_transfer id kind request fields s).0
        ≡ notify_changed
            (record s { active = insert id (new_transfer id kind request fields) s.active })
  unfolding start_transfer notify_changed
  start_parts id kind request fields s = refl

-- `to_count` holds the transfers that a `finish` has removed and not yet counted, `to_notify` the
-- number of threads that have changed the map and not yet called `notify_waiters`.
pub record World (Value : Type 0) : Type 0 where
  pub tracker : ShutdownState Value
  pub to_count : List (ActiveTransfer Value)
  pub to_notify : ℕ
  pub waiter : Waiter

-- What the waiter's place says, over the count of notifications, the threads that will still
-- notify, and the number of active transfers.
abbrev Covered : (changed to_notify to_count active : ℕ) → Waiter → Type 0
Covered c n k a looping = Unit
Covered c n k a (registered e) = e ≤ c
Covered c n k a (awaiting e) = (e ≤ c) × (c ≡ e → n ≡ 0 → k ≡ 0 → a ≢ 0)
Covered c n k a returned = Unit

-- A thread that has still to notify covers any waiter.
Covered-by_thread :
    (c n k a n' k' a' : ℕ) (p : Waiter) → 0 < n' + k' → Covered c n k a p → Covered c n' k' a' p
Covered-by_thread c n k a n' k' a' looping h g = tt
Covered-by_thread c n k a n' k' a' (registered e) h g = g
Covered-by_thread c n k a n' k' a' (awaiting e) h g = (g.0, λ x y z. absurd (omega arith))
Covered-by_thread c n k a n' k' a' returned h g = tt

Covered-by_notice : (c n k a n' : ℕ) (p : Waiter) → Covered c n k a p → Covered (c + 1) n' k a p
Covered-by_notice c n k a n' looping g = tt
Covered-by_notice c n k a n' (registered e) g = omega arith
Covered-by_notice c n k a n' (awaiting e) g = (omega arith, λ x. absurd (omega (arith, g.0)))
Covered-by_notice c n k a n' returned g = tt

abbrev CoveredIn : {Value : Type 0} → World Value → Type 0
CoveredIn w =
    Covered w.tracker.changed w.to_notify (length w.to_count) (active_count w.tracker) w.waiter

module _ {Value : Type 0} where
  abbrev pub idle : World Value
  idle = record { tracker = default; to_count = []; to_notify = 0; waiter = looping }

  pub data Step (w : World Value) : World Value → Type 0 where
    start_inserts :
        (id : ℕ) (t : ActiveTransfer Value)
        → Step w (record w {
          tracker = record w.tracker { active = insert id t w.tracker.active };
          to_notify = w.to_notify + 1;
        })
    finish_removes :
        (id : ℕ) (t : ActiveTransfer Value)
        → get id w.tracker.active ≡ some t
        → Step w (record w {
          tracker = record w.tracker { active = remove id w.tracker.active };
          to_count = t ∷ w.to_count;
        })
    finish_counts :
        (t : ActiveTransfer Value) (rest : List (ActiveTransfer Value))
        → w.to_count ≡ t ∷ rest
        → Step w (record w {
          tracker = count_ended t w.tracker;
          to_count = rest;
          to_notify = w.to_notify + 1;
        })
    notifies :
        (n : ℕ)
        → w.to_notify ≡ suc n
        → Step w (record w { tracker = notify_changed w.tracker; to_notify = n })
    registers : w.waiter ≡ looping → Step w (record w { waiter = registered w.tracker.changed })
    sees_none :
        (e : ℕ)
        → w.waiter ≡ registered e
        → active_count w.tracker ≡ 0
        → Step w (record w { waiter = returned })
    sees_some :
        (e : ℕ)
        → w.waiter ≡ registered e
        → active_count w.tracker ≢ 0
        → Step w (record w { waiter = awaiting e })
    wakes :
        (e : ℕ)
        → w.waiter ≡ awaiting e
        → w.tracker.changed ≢ e
        → Step w (record w { waiter = looping })

  pub data Reach : World Value → Type 0 where
    here : Reach idle
    next : {w v : World Value} → Reach w → Step w v → Reach v

  count_ended-active :
      (t : ActiveTransfer Value) (s : ShutdownState Value)
      → ((count_ended t s).changed ≡ s.changed) × (active_count (count_ended t s) ≡ active_count s)
  unfolding count_ended active_count
  count_ended-active t s = ground arith

  Step-Covered : {w v : World Value} → Step w v → CoveredIn w → CoveredIn v
  unfolding notify_changed active_count
  Step-Covered {w} (start_inserts id t) h = Covered-by_thread _ _ _ _ _ _ _ w.waiter (omega arith) h
  Step-Covered {w} (finish_removes id t found) h =
      Covered-by_thread _ _ _ _ _ _ _ w.waiter (omega arith) h
  Step-Covered {w} (finish_counts t rest e) h =
      rw (count_ended-active t w.tracker).0
        (Covered-by_thread _ _ _ _ _ _ _ w.waiter (omega arith) h)
  Step-Covered {w} (notifies n e) h = Covered-by_notice _ _ _ _ _ w.waiter h
  Step-Covered (registers e) h = omega arith
  Step-Covered (sees_none e p none_left) h = tt
  Step-Covered {w} (sees_some e p some_left) h =
      let at : Covered w.tracker.changed w.to_notify (length w.to_count) (length w.tracker.active)
          (registered e) =
        rw p at h in
      (at, λ _ _ _. some_left)
  Step-Covered (wakes e p moved) h = tt

  Reach-Covered : {w : World Value} → Reach w → CoveredIn w
  Reach-Covered here = tt
  Reach-Covered (next r st) = Step-Covered st (Reach-Covered r)

-- No lost wake-up: in every interleaving of the waiter with threads that start and finish
-- transfers, a waiter that awaits a notification not yet given, while no thread has one left to
-- give, has a transfer to wait for.
pub wait_for_no_transfers_wakes :
    {Value : Type 0} {w : World Value}
    → Reach w
    → w.waiter ≡ awaiting w.tracker.changed
    → w.to_notify ≡ 0
    → w.to_count ≡ []
    → active_count w.tracker ≢ 0
wait_for_no_transfers_wakes {w} r p n k =
    let h : Covered w.tracker.changed w.to_notify (length w.to_count) (active_count w.tracker)
        (awaiting w.tracker.changed) =
      rw p at (Reach-Covered r) in
    h.1 refl n (ap length k)
