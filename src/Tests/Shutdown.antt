-- ===== src/Tests/Shutdown.antt =====
-- src/shutdown.rs at concrete inputs, after the test `tracks_completed_and_forced_transfers`.
use update_delivery_system.Prelude.{ℕ, ◌+◌, ◌≤◌, ◌<◌, ◌≡◌, ◌≢◌, refl, true, List, [], ◌∷◌, arith}
use update_delivery_system.Prelude.BTreeMap.{get, insert, remove}
use update_delivery_system.Prelude.Words.{wrapping_add}
use update_delivery_system.Prelude.BTreeMap.Keys.{id_ord}
use update_delivery_system.Shutdown.{
  download, upload, default, totals, active_count, new_transfer, ActiveTransfer, start_transfer,
  finish, mark_active_forced,
}
use update_delivery_system.Shutdown.Accounting.{
  Call, start, mark_forced, dropped, run, perform, totals_account_for_starts,
}
use update_delivery_system.Shutdown.Waiting.{
  World, Reach, here, next, start_inserts, notifies, registers, sees_some, awaiting,
  wait_for_no_transfers_wakes, notify_changed,
}
use update_delivery_system.Shutdown.Draining

-- One transfer completes, one is forced and aborted, one is still active.
abbrev calls : List (Call ℕ)
calls =
    start 1 download "one" []
    ∷ dropped 1
    ∷ start 2 upload "two" []
    ∷ mark_forced
    ∷ dropped 2
    ∷ start 3 download "three" []
    ∷ []

counted : totals (run calls default) ≡ record { completed = 1; aborted = 1 }
unfolding totals run perform start_transfer finish mark_active_forced get insert remove wrapping_add
counted = refl

totals_account_for_starts_example :
    (totals (run calls default)).completed
      + (totals (run calls default)).aborted
      + active_count (run calls default)
    ≡ 3
totals_account_for_starts_example = totals_account_for_starts calls (omega arith) (
    unfold perform start_transfer finish mark_active_forced get insert remove in
    (refl, (tt, (refl, (tt, (tt, (refl, tt)))))))

abbrev transfer : ActiveTransfer ℕ
transfer = new_transfer 1 download "one" []

-- A transfer has started and is announced, and the waiter awaits the next change.
abbrev waiting : World ℕ
waiting = record {
  tracker = record default { active = (1, transfer) ∷ []; changed = 1 };
  to_count = [];
  to_notify = 0;
  waiter = awaiting 1;
}

waiting_reached : Reach waiting
unfolding notify_changed insert active_count
waiting_reached =
    next (next (next (next here (start_inserts 1 transfer)) (notifies 0 refl)) (registers refl))
      (sees_some 1 refl (λ e. omega arith))

wait_for_no_transfers_wakes_example : active_count waiting.tracker ≢ 0
wait_for_no_transfers_wakes_example = wait_for_no_transfers_wakes waiting_reached refl refl refl

-- Draining has begun, and the thread that began it has not yet notified the waiter.
abbrev draining : Draining.DrainWorld
draining = record {
  draining = true;
  drain_started = 0;
  to_notify = 1;
  began = 0;
  waiter = Draining.DrainWaiter.awaiting 0;
}

draining_reached : Draining.DrainReach draining
draining_reached =
    Draining.DrainReach.next
      (Draining.DrainReach.next
        (Draining.DrainReach.next
          (Draining.DrainReach.next Draining.DrainReach.here (Draining.DrainStep.passes refl refl))
          (Draining.DrainStep.registers refl))
        (Draining.DrainStep.waits 0 refl refl))
      (Draining.DrainStep.exchanges refl)

draining_notified_wakes_example :
    (draining.began ≤ 1)
    × (draining.waiter ≡ Draining.DrainWaiter.returned → draining.draining ≡ true)
    × (draining.waiter ≡ Draining.DrainWaiter.awaiting draining.drain_started
        → draining.draining ≡ true
        → 0 < draining.to_notify)
draining_notified_wakes_example = Draining.draining_notified_wakes draining_reached
