-- ===== src/SelfUpdate/Evolution.antt =====
-- What the helper of src/self_update.rs does to the records: a staged operation keeps its request,
-- and no other record changes.
use update_delivery_system.Prelude.{
  ℕ, ◌≡◌, refl, ◌⊎◌, inl, inr, String, Bool, true, false, ◌&&◌, ◌==◌, Option, none, some, unwrap_or,
  List, [], ◌∷◌, if◌then◌else◌,
}
use update_delivery_system.Prelude.BTreeMap.{get}
use update_delivery_system.Prelude.BTreeMap.Keys.{id_ord}
use update_delivery_system.Errors.{Result, ok, err, show_error}
use update_delivery_system.SelfUpdate.{
  Platform, UpdateOperation, OperationStatus, queued, downloading, staged, applying, boot_confirmed,
  succeeded, rolled_back, failed,
}
use update_delivery_system.SelfUpdate.Manager.{
  OperationFile, missing, unreadable, malformed, holds, Directory, Node, empty_directory, file_at,
}
use update_delivery_system.SelfUpdate.Helper.{Host, HelperIo, on_file, apply_staged}
use update_delivery_system.SelfUpdate.Pending.{
  not_restored, was_restored, not_started, wait_active, with_error, update_sync, written, Applied,
  finished, confirm_written, confirm, restored, previous_renamed, binary_removed, after_apply,
  apply_written, apply_operation, skipped, is_staged, apply_file, apply_directory, Pass, unmark,
  after_round, apply_all, apply_pending,
}

-- The file holds the operation, up to what is not its request.
abbrev KeepsRequest : UpdateOperation → OperationFile → Type 0
KeepsRequest operation f =
    (after : UpdateOperation) × (f ≡ holds after) × (after.request ≡ operation.request)

abbrev pub Evolves : OperationFile → OperationFile → Type 0
Evolves f g =
    (g ≡ f)
    ⊎ ((operation : UpdateOperation) × (f ≡ holds operation)
        × (operation.status ≡ staged)
        × KeepsRequest operation g)

module _ (p : Platform) (fs : HelperIo) (now : String) (operation : UpdateOperation) where
  abbrev Kept : Applied → Type 0
  Kept a = KeepsRequest operation a.directory.operation

  finished-Kept :
      (h : Host) (d : Directory) (after : UpdateOperation)
      → after.request ≡ operation.request
      → KeepsRequest operation d.operation
      → (io : Result (Unit {0})) → Kept (finished operation h (written after d io))
  finished-Kept h d after r k (err e) = k
  finished-Kept h d after r k (ok _) = (after, refl, r)

  module _ (d : Directory) (k : KeepsRequest operation d.operation) where
    final :
        (h : Host) (status : OperationStatus) (message : Option String) (io : Result (Unit {0}))
        → Kept (finished operation h (written (with_error status now message operation) d io))
    final h status message io =
        finished-Kept h d (with_error status now message operation) refl k io

    confirm-Kept : (h : Host) → Kept (confirm fs now operation d h)
    unfolding update_sync
    confirm-Kept h = go fs.write_confirmed
      where
        go :
            (r : Result (Unit {0}))
            → Kept (
                confirm_written fs now operation h
                  (written (with_error boot_confirmed now none operation) d r))
        go (err x) = k
        go (ok _) =
            finished-Kept h
              (record d { operation = holds (with_error boot_confirmed now none operation) })
              (with_error succeeded now none operation) refl
              (with_error boot_confirmed now none operation, refl, refl) fs.write_succeeded

    restored-Kept : (h : Host) (b : Bool) → Kept (restored fs now operation d h b)
    unfolding update_sync
    restored-Kept h true = final h rolled_back (some was_restored) fs.write_rollback
    restored-Kept h false = final h failed (some not_started) fs.write_rollback

    removed-Kept : (h : Host) (r : Result (Unit {0})) → Kept (binary_removed fs now operation d h r)
    unfolding update_sync
    removed-Kept h (err e) = final h failed (some not_restored) fs.write_rollback
    removed-Kept h (ok _) = go (on_file h.previous fs.rename_previous)
      where
        go :
            (r : Result (Unit {0}))
            → Kept (previous_renamed fs now operation d (record h { binary = none }) r)
        go (err e) = final (record h { binary = none }) failed (some not_restored) fs.write_rollback
        go (ok _) = restored-Kept _ fs.restarted_previous

    after_apply-Kept : (r : Result (Unit {0}) × Host) → Kept (after_apply fs now operation d r)
    unfolding update_sync
    after_apply-Kept (err e, h) = final h failed (some (show_error e)) fs.write_failed
    after_apply-Kept (ok _, h) = go (fs.restarted && wait_active fs.looks)
      where
        go :
            (t : Bool)
            → Kept (
                if t
                then confirm fs now operation d h
                else binary_removed fs now operation d h (on_file h.binary fs.remove_binary))
        go true = confirm-Kept h
        go false = removed-Kept h (on_file h.binary fs.remove_binary)

  apply_operation-Kept :
      (d : Directory) (h : Host)
      → d.operation ≡ holds operation
      → Kept (apply_operation fs now operation p d h)
  unfolding apply_operation update_sync
  apply_operation-Kept d h e = go fs.write_applying
    where
      go :
          (r : Result (Unit {0}))
          → Kept (
              apply_written fs now operation p h
                (written (with_error applying now none operation) d r))
      go (err x) = (operation, e, refl)
      go (ok _) =
          after_apply-Kept (record d { operation = holds (with_error applying now none operation) })
            (with_error applying now none operation, refl, refl)
            (apply_staged p fs
              (record d { operation = holds (with_error applying now none operation) }) h)

module _ (p : Platform) (fs : HelperIo) (now : String) (d : Directory) (h : Host) where
  apply_file-Evolves :
      (f : OperationFile)
      → d.operation ≡ f
      → Evolves d.operation (apply_file p fs now d h f).directory.operation
  apply_file-Evolves missing e = inl refl
  apply_file-Evolves (unreadable x) e = inl refl
  apply_file-Evolves (malformed x) e = inl refl
  apply_file-Evolves (holds operation) e = go operation.status refl
    where
      go :
          (s : OperationStatus)
          → operation.status ≡ s
          → Evolves d.operation
              (if is_staged s
                then apply_operation fs now operation p d h
                else skipped (ok tt) d h).directory.operation
      go staged s = inr (operation, e, s, apply_operation-Kept p fs now operation d h e)
      go queued s = inl refl
      go downloading s = inl refl
      go applying s = inl refl
      go boot_confirmed s = inl refl
      go succeeded s = inl refl
      go rolled_back s = inl refl
      go failed s = inl refl

  apply_directory-Evolves : Evolves d.operation (apply_directory p fs now d h).directory.operation
  unfolding apply_directory
  apply_directory-Evolves = apply_file-Evolves d.operation refl

abbrev FileOf : Option Directory → OperationFile
FileOf o = (unwrap_or o empty_directory).operation

module _ (p : Platform) (io : ℕ → HelperIo) (removes : ℕ → Bool) (now : String) where
  apply_all-Evolves :
      (entries : List (ℕ × Directory)) (markers : List (ℕ × Unit {0})) (h : Host) (i : ℕ)
      → Evolves
          (FileOf (get i entries))
          (FileOf (get i (apply_all p io removes now entries markers h).operations))
  unfolding apply_all get
  apply_all-Evolves [] markers h i = inl refl
  apply_all-Evolves ((id, d) ∷ entries) markers h i =
      go one.result (apply_all-Evolves entries (unmark removes one.unmarked markers) one.host i)
    where
      one : Applied
      one = apply_directory p (io id) now d h

      rest : Pass
      rest = apply_all p io removes now entries (unmark removes one.unmarked markers) one.host

      choose :
          (t : Bool) (o o' : Option Directory)
          → Evolves (FileOf o) (FileOf o')
          → Evolves
              (FileOf (if t then some d else o))
              (FileOf (if t then some one.directory else o'))
      choose true o o' k = apply_directory-Evolves p (io id) now d h
      choose false o o' k = k

      go :
          (r : Result (Unit {0}))
          → Evolves (FileOf (get i entries)) (FileOf (get i rest.operations))
          → Evolves
              (FileOf (if id == i then some d else get i entries))
              (FileOf (get i (after_round id entries markers one rest r).operations))
      go (err e) k = choose (id == i) (get i entries) (get i entries) (inl refl)
      go (ok _) k = choose (id == i) (get i entries) (get i rest.operations) k

  pub apply_pending-Evolves :
      (n : Node) (h : Host) (i : ℕ)
      → Evolves (file_at i n) (file_at i (apply_pending p io removes now n h).1)
  unfolding apply_pending
  apply_pending-Evolves n h i = apply_all-Evolves n.operations n.markers h i
