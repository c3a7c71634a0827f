-- ===== src/SelfUpdate/Pending.antt =====
-- `apply_pending` of src/self_update.rs: the helper applies the staged operations, restarts the
-- service, and restores the previous executable if the service does not stay active.
use update_delivery_system.Prelude.{
  ℕ, String, Bool, true, false, ◌&&◌, Option, none, some, List, [], ◌∷◌, if◌then◌else◌,
}
use update_delivery_system.Prelude.BTreeMap.{remove}
use update_delivery_system.Prelude.BTreeMap.Keys.{id_ord}
use update_delivery_system.Errors.{Result, ok, err, show_error}
use update_delivery_system.SelfUpdate.{
  Platform, UpdateOperation, OperationStatus, staged, applying, boot_confirmed, succeeded,
  rolled_back, failed, sanitize_error,
}
use update_delivery_system.SelfUpdate.Manager.{
  missing, unreadable, malformed, holds, OperationFile, Directory, Node,
}
use update_delivery_system.SelfUpdate.Helper.{Host, HelperIo, on_file, apply_staged}

unfoldable pub wait_active : List Bool → Bool
wait_active [] = true
wait_active (active ∷ looks) = if active then wait_active looks else false

abbrev pub with_error : OperationStatus → String → Option String → UpdateOperation → UpdateOperation
with_error status now message operation = record operation {
  status = status;
  updated_at = now;
  error = elim message [ none ↦ none | some text ↦ some (sanitize_error text) ];
}

abbrev pub written : UpdateOperation → Directory → Result (Unit {0}) → Result (Unit {0}) × Directory
written operation d (err e) = (err e, d)
written operation d (ok _) = (ok tt, record d { operation = holds operation })

-- `update_sync`, whose operation is changed also where the write fails.
unfoldable pub update_sync :
    Result (Unit {0}) → UpdateOperation → Directory → Result (Unit {0}) × Directory
update_sync io operation d = written operation d io

-- What one round of the loop leaves: whether the loop goes on, the directory, the executable files,
-- and the operation of which the marker is removed.
pub record Applied : Type 0 where
  pub result : Result (Unit {0})
  pub directory : Directory
  pub host : Host
  pub unmarked : Option ℕ

abbrev pub finished : UpdateOperation → Host → Result (Unit {0}) × Directory → Applied
finished operation h (err e, d) = record {
  result = err e;
  directory = d;
  host = h;
  unmarked = none;
}
finished operation h (ok _, d) = record {
  result = ok tt;
  directory = d;
  host = h;
  unmarked = some operation.request.operation_id;
}

abbrev pub not_restored : String
not_restored = "the new version failed and restoring the previous executable also failed"

abbrev pub was_restored : String
was_restored = "the new version did not remain ready; the previous executable was restored"

abbrev pub not_started : String
not_started = "the new version failed and the restored service could not be started"

module _ (fs : HelperIo) (now : String) (operation : UpdateOperation) where
  abbrev pub confirm_written : Host → Result (Unit {0}) × Directory → Applied
  confirm_written h (err e, d) = finished operation h (err e, d)
  confirm_written h (ok _, d) =
      finished operation h
        (update_sync fs.write_succeeded (with_error succeeded now none operation) d)

  abbrev pub confirm : Directory → Host → Applied
  confirm d h =
      confirm_written h
        (update_sync fs.write_confirmed (with_error boot_confirmed now none operation) d)

  abbrev pub rollback_failed : Directory → Host → Applied
  rollback_failed d h =
      finished operation h
        (update_sync fs.write_rollback (with_error failed now (some not_restored) operation) d)

  abbrev pub restored : Directory → Host → Bool → Applied
  restored d h true =
      finished operation h
        (update_sync fs.write_rollback (with_error rolled_back now (some was_restored) operation) d)
  restored d h false =
      finished operation h
        (update_sync fs.write_rollback (with_error failed now (some not_started) operation) d)

  abbrev pub previous_renamed : Directory → Host → Result (Unit {0}) → Applied
  previous_renamed d h (err e) = rollback_failed d h
  previous_renamed d h (ok _) =
      restored d (record h { binary = h.previous; previous = none }) fs.restarted_previous

  abbrev pub binary_removed : Directory → Host → Result (Unit {0}) → Applied
  binary_removed d h (err e) = rollback_failed d h
  binary_removed d h (ok _) =
      previous_renamed d (record h { binary = none }) (on_file h.previous fs.rename_previous)

  abbrev pub after_apply : Directory → Result (Unit {0}) × Host → Applied
  after_apply d (err e, h) =
      finished operation h
        (update_sync fs.write_failed (with_error failed now (some (show_error e)) operation) d)
  after_apply d (ok _, h) =
      if fs.restarted && wait_active fs.looks
      then confirm d h
      else binary_removed d h (on_file h.binary fs.remove_binary)

  abbrev pub apply_written : Platform → Host → Result (Unit {0}) × Directory → Applied
  apply_written p h (err e, d) = finished operation h (err e, d)
  apply_written p h (ok _, d) = after_apply d (apply_staged p fs d h)

  unfoldable pub apply_operation : Platform → Directory → Host → Applied
  unfolding update_sync
  apply_operation p d h =
      apply_written p h (update_sync fs.write_applying (with_error applying now none operation) d)

abbrev pub skipped : Result (Unit {0}) → Directory → Host → Applied
skipped result d h = record { result = result; directory = d; host = h; unmarked = none }

abbrev pub is_staged : OperationStatus → Bool
is_staged staged = true
is_staged _ = false

abbrev pub apply_file : Platform → HelperIo → String → Directory → Host → OperationFile → Applied
apply_file p fs now d h missing = skipped (ok tt) d h
apply_file p fs now d h (unreadable e) = skipped (ok tt) d h
apply_file p fs now d h (malformed e) = skipped (err e) d h
apply_file p fs now d h (holds operation) =
    if is_staged operation.status
    then apply_operation fs now operation p d h
    else skipped (ok tt) d h

-- One round of the loop over the directories.
unfoldable pub apply_directory : Platform → HelperIo → String → Directory → Host → Applied
unfolding apply_operation
apply_directory p fs now d h = apply_file p fs now d h d.operation

-- The removal of a marker is not checked: the answers of `removes` say which succeed.
abbrev pub unmark : (ℕ → Bool) → Option ℕ → List (ℕ × Unit {0}) → List (ℕ × Unit {0})
unmark removes none markers = markers
unmark removes (some id) markers = if removes id then remove id markers else markers

-- What the loop leaves: the directories, the markers and the executable files.
pub record Pass : Type 0 where
  pub result : Result (Unit {0})
  pub operations : List (ℕ × Directory)
  pub markers : List (ℕ × Unit {0})
  pub host : Host

abbrev pub after_round :
    ℕ → List (ℕ × Directory) → List (ℕ × Unit {0}) → Applied → Pass → Result (Unit {0}) → Pass
after_round id entries markers one rest (err e) = record {
  result = err e;
  operations = (id, one.directory) ∷ entries;
  markers = markers;
  host = one.host;
}
after_round id entries markers one rest (ok _) = record rest {
  operations = (id, one.directory) ∷ rest.operations;
}

-- The loop; `io` has the outcomes for each directory.
unfoldable pub apply_all :
    Platform
    → (ℕ → HelperIo)
    → (ℕ → Bool)
    → String
    → List (ℕ × Directory)
    → List (ℕ × Unit {0})
    → Host
    → Pass
apply_all p io removes now [] markers h = record {
  result = ok tt;
  operations = [];
  markers = markers;
  host = h;
}
apply_all p io removes now ((id, d) ∷ entries) markers h =
    let one = apply_directory p (io id) now d h in
    let rest = apply_all p io removes now entries (unmark removes one.unmarked markers) one.host in
    after_round id entries markers one rest one.result

unfoldable pub apply_pending :
    Platform → (ℕ → HelperIo) → (ℕ → Bool) → String → Node → Host → Result (Unit {0}) × Node × Host
unfolding apply_all
apply_pending p io removes now n h =
    let pass = apply_all p io removes now n.operations n.markers h in
    (pass.result, record n { operations = pass.operations; markers = pass.markers }, pass.host)
