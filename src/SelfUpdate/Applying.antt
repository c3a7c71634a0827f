-- ===== src/SelfUpdate/Applying.antt =====
-- What `apply_pending` of src/self_update.rs leaves of a staged operation.
use mathlib.Core.Path.{subst}
use update_delivery_system.Prelude.{
  ◌≡◌, refl, sym, ap, ◌∙◌, ◌⊎◌, inl, inr, String, Bool, true, false, ◌&&◌, Option, none, some,
  if◌then◌else◌,
}
use update_delivery_system.Errors.{Result, ok, err, show_error}
use update_delivery_system.SelfUpdate.{
  Bytes, Platform, UpdateOperation, OperationStatus, staged, applying, boot_confirmed, succeeded,
  rolled_back, failed, terminal,
}
use update_delivery_system.SelfUpdate.Manager.{holds, Directory}
use update_delivery_system.SelfUpdate.Helper.{
  Host, HelperIo, verified_executable, replace_binary, apply_staged, on_file,
}
use update_delivery_system.SelfUpdate.Replacement.{
  Replaced, replace_binary-Replaced, IsVerified, verified_executable-IsVerified,
}
use update_delivery_system.SelfUpdate.Pending.{
  not_restored, was_restored, not_started, wait_active, with_error, update_sync, written, Applied,
  finished, confirm_written, confirm, restored, previous_renamed, binary_removed, after_apply,
  apply_written, apply_operation, apply_directory, apply_file, is_staged, skipped,
}

module _ (p : Platform) (signed : Directory) (old : Bytes) where
  -- The new executable runs, and the old one stands beside it.
  abbrev pub IsInstalled : Host → Type 0
  IsInstalled h =
      (executable : Bytes) × IsVerified p signed executable
      × (h.binary ≡ some executable)
      × (h.previous ≡ some old)

  -- No executable but the old one and a verified one, and the old one is not lost before.
  abbrev pub IsSafe : Host → Type 0
  IsSafe h =
      (h.binary ≡ some old)
      ⊎ ((executable : Bytes) × IsVerified p signed executable × (h.binary ≡ some executable))
      ⊎ ((h.binary ≡ none) × (h.previous ≡ some old))

  -- What a recorded status says of the executable.
  abbrev pub Means : OperationStatus → Host → Type 0
  Means succeeded h = IsInstalled h
  Means rolled_back h = h.binary ≡ some old
  Means _ h = IsSafe h

  -- The recorded operation has the same request and a true status, which is terminal unless a write
  -- of the record failed.
  abbrev pub Outcome : UpdateOperation → Applied → Type 0
  Outcome operation a =
      (after : UpdateOperation) × (a.directory.operation ≡ holds after)
      × (after.request ≡ operation.request)
      × Means after.status a.host
      × (a.result ≡ ok tt → terminal after.status ≡ true)

  IsSafe-IsInstalled : (h : Host) → IsInstalled h → IsSafe h
  IsSafe-IsInstalled h (executable, v, b, _) = inr (inl (executable, v, b))

  module _ (fs : HelperIo) (now : String) (operation : UpdateOperation) where
    finished-Outcome :
        (h : Host) (d : Directory) (before after : UpdateOperation)
        → d.operation ≡ holds before
        → before.request ≡ operation.request
        → Means before.status h
        → after.request ≡ operation.request
        → Means after.status h
        → terminal after.status ≡ true
        → (io : Result (Unit {0})) → Outcome operation (finished operation h (written after d io))
    finished-Outcome h d before after e q m r n t (err x) = (before, e, q, m, λ f. cc)
    finished-Outcome h d before after e q m r n t (ok _) = (after, refl, r, n, λ f. t)

    module _ (d : Directory) (before : UpdateOperation) (e : d.operation ≡ holds before)
        (q : before.request ≡ operation.request) (status : before.status ≡ applying) where
      Means-IsSafe : (h : Host) → IsSafe h → Means before.status h
      Means-IsSafe h s = rw status s

      failed-Outcome :
          (h : Host) (message : Option String) (io : Result (Unit {0}))
          → IsSafe h
          → Outcome operation
              (finished operation h (written (with_error failed now message operation) d io))
      unfolding terminal
      failed-Outcome h message io s =
          finished-Outcome h d before (with_error failed now message operation) e q
            (Means-IsSafe h s) refl s refl io

      confirm-Outcome :
          (h : Host) → IsInstalled h → Outcome operation (confirm fs now operation d h)
      unfolding update_sync terminal
      confirm-Outcome h i = go fs.write_confirmed
        where
          go :
              (r : Result (Unit {0}))
              → Outcome operation (
                  confirm_written fs now operation h
                    (written (with_error boot_confirmed now none operation) d r))
          go (err x) = (before, e, q, Means-IsSafe h (IsSafe-IsInstalled h i), λ f. cc)
          go (ok _) =
              finished-Outcome h
                (record d { operation = holds (with_error boot_confirmed now none operation) })
                (with_error boot_confirmed now none operation)
                (with_error succeeded now none operation) refl refl (IsSafe-IsInstalled h i) refl i
                refl fs.write_succeeded

      restored-Outcome :
          (h : Host)
          → h.binary ≡ some old
          → (b : Bool) → Outcome operation (restored fs now operation d h b)
      unfolding update_sync terminal
      restored-Outcome h o true =
          finished-Outcome h d before (with_error rolled_back now (some was_restored) operation) e q
            (Means-IsSafe h (inl o)) refl o refl fs.write_rollback
      restored-Outcome h o false = failed-Outcome h (some not_started) fs.write_rollback (inl o)

      removed-Outcome :
          (h : Host)
          → IsInstalled h
          → (r : Result (Unit {0})) → Outcome operation (binary_removed fs now operation d h r)
      unfolding update_sync
      removed-Outcome h i (err x) =
          failed-Outcome h (some not_restored) fs.write_rollback (IsSafe-IsInstalled h i)
      removed-Outcome h i (ok _) = go (on_file h.previous fs.rename_previous)
        where
          go :
              (r : Result (Unit {0}))
              → Outcome operation
                  (previous_renamed fs now operation d (record h { binary = none }) r)
          go (err x) =
              failed-Outcome (record h { binary = none }) (some not_restored) fs.write_rollback
                (inr (inr (refl, i.3)))
          go (ok _) = restored-Outcome _ i.3 fs.restarted_previous

      after_apply-Outcome :
          (h : Host)
          → h.binary ≡ some old
          → verified_executable p d ≡ verified_executable p signed
          → Outcome operation (after_apply fs now operation d (apply_staged p fs d h))
      unfolding update_sync apply_staged replace_binary
      after_apply-Outcome h o same = checked (verified_executable p d) same
        where
          applied :
              (executable : Bytes)
              → IsVerified p signed executable
              → (r : Result (Unit {0})) (h' : Host) → Replaced old executable (r, h')
              → Outcome operation (after_apply fs now operation d (r, h'))
          applied x v (err y) h' (inl b) =
              failed-Outcome h' (some (show_error y)) fs.write_failed (inl b)
          applied x v (err y) h' (inr b) =
              failed-Outcome h' (some (show_error y)) fs.write_failed (inr (inr b))
          applied x v (ok _) h' (b, c) = ready (fs.restarted && wait_active fs.looks)
            where
              ready :
                  (t : Bool)
                  → Outcome operation (
                      if t
                      then confirm fs now operation d h'
                      else binary_removed fs now operation d h'
                          (on_file h'.binary fs.remove_binary))
              ready true = confirm-Outcome h' (x, v, b, c)
              ready false = removed-Outcome h' (x, v, b, c) (on_file h'.binary fs.remove_binary)

          checked :
              (r : Result Bytes)
              → r ≡ verified_executable p signed
              → Outcome operation (after_apply fs now operation d (replace_binary fs h r))
          checked (err y) k = failed-Outcome h (some (show_error y)) fs.write_failed (inl o)
          checked (ok x) k =
              applied x (verified_executable-IsVerified p signed x (sym k)) _ _
                (replace_binary-Replaced old x fs h o)

    -- A staged operation that the helper meets.
    pub apply_operation-Outcome :
        (h : Host)
        → signed.operation ≡ holds operation
        → operation.status ≡ staged
        → h.binary ≡ some old
        → Outcome operation (apply_operation fs now operation p signed h)
    unfolding apply_operation update_sync
    apply_operation-Outcome h e s o = go fs.write_applying
      where
        go :
            (r : Result (Unit {0}))
            → Outcome operation (
                apply_written fs now operation p h
                  (written (with_error applying now none operation) signed r))
        go (err x) = (operation, e, refl, rw s (inl o), λ f. cc)
        go (ok _) =
            unfold verified_executable in
            after_apply-Outcome
              (record signed { operation = holds (with_error applying now none operation) })
              (with_error applying now none operation) refl refl refl h o refl

pub apply_directory_staged :
    (p : Platform) (fs : HelperIo) (now : String) (d : Directory) (h : Host)
    (operation : UpdateOperation)
    → d.operation ≡ holds operation
    → operation.status ≡ staged
    → apply_directory p fs now d h ≡ apply_operation fs now operation p d h
unfolding apply_directory
apply_directory_staged p fs now d h operation e s =
    ap (apply_file p fs now d h) e
    ∙ ap (λ t. if is_staged t then apply_operation fs now operation p d h else skipped (ok tt) d h)
        s

-- When the helper meets a staged operation, and an executable is in place, then, whichever call of
-- the file system or of systemctl fails: the recorded status is `succeeded` only if the executable
-- is a new one that the signed manifest, its size, its digest and its version vouch for, with the
-- old one beside it; it is `rolled_back` only if the old one is in place; in every other state the
-- executable is the old one or such a new one, or the old one is kept beside the empty place. The
-- record keeps its request, and its status is terminal unless a write of the record failed.
pub apply_directory-Outcome :
    (p : Platform) (fs : HelperIo) (now : String) (d : Directory) (h : Host) (old : Bytes)
    (operation : UpdateOperation)
    → d.operation ≡ holds operation
    → operation.status ≡ staged
    → h.binary ≡ some old
    → Outcome p d old operation (apply_directory p fs now d h)
apply_directory-Outcome p fs now d h old operation e s o =
    subst (Outcome p d old operation) (sym (apply_directory_staged p fs now d h operation e s))
      (apply_operation-Outcome p d old fs now operation h e s o)
