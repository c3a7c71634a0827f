-- ===== src/SelfUpdate/Tasks.antt =====
-- What the acceptance of a request and the staging tasks of src/self_update.rs do to the records.
use update_delivery_system.Prelude.{
  ℕ, ◌≡◌, refl, ap, ◌∙◌, ◌⊎◌, inl, inr, String, Option, none, some, unwrap_or, List, [], ◌∷◌, ◌++◌,
  arith,
}
use update_delivery_system.Prelude.BTreeMap.{get, insert}
use update_delivery_system.Prelude.BTreeMap.Keys.{id_ord}
use update_delivery_system.Errors.{Result, ok, err, show_error}
use update_delivery_system.SelfUpdate.{
  Bytes, Platform, StartUpdateRequest, UpdateOperation, downloading, staged,
}
use update_delivery_system.SelfUpdate.Releases.{Network}
use update_delivery_system.SelfUpdate.Manager.{
  OperationFile, missing, unreadable, malformed, holds, Directory, Node, UpdateManager,
  empty_directory, directory, file_at, read_file, change_directory, put_operation, write_next,
  write, with_status, new_operation, spawn_stage, active_operation, start_inactive, start_read,
  start_checked, check_start, start,
}
use update_delivery_system.SelfUpdate.Staging.{
  StageIo, begin_with, begin_stage, download, write_files, finish_with, finish_downloaded,
  finish_stage,
}
use update_delivery_system.SelfUpdate.Steps.{IsActive}
use update_delivery_system.SelfUpdate.Records.{
  Only, Only-trans, Only-change_directory, file_at-change_directory, get_operation_lem, IsSettled,
  put_operation-IsSettled, fail-IsSettled, write_next-IsSettled, active_operation-none,
}

-- What `start` leaves: nothing is changed, or nothing was recorded under the identifier, no
-- operation was active, and the new operation is recorded and its task spawned.
abbrev pub Started : String → StartUpdateRequest → Node → Result UpdateOperation × Node → Type 0
Started now request n s =
    (s.1 ≡ n)
    ⊎ ((file_at request.operation_id n ≡ missing)
        × (active_operation n.operations ≡ ok none)
        × (s.1 ≡ record (put_operation (new_operation now request) n) {
          spawned = n.spawned ++ request.operation_id ∷ [];
        }))

module _ (p : Platform) (manager : UpdateManager) (io : Result (Unit {0})) (now : String)
    (request : StartUpdateRequest) (n : Node) where
  start_inactive-Started :
      (r : Result (Option UpdateOperation))
      → file_at request.operation_id n ≡ missing
      → active_operation n.operations ≡ r
      → Started now request n (start_inactive io now request n r)
  start_inactive-Started (err e) m a = inl refl
  start_inactive-Started (ok (some active)) m a = inl refl
  start_inactive-Started (ok none) m a = unfold write in go io
    where
      go :
          (r : Result (Unit {0}))
          → Started now request n (
              spawn_stage
                (new_operation now request)
                (write_next (ok tt, n) r (put_operation (new_operation now request))))
      go (err x) = inl refl
      go (ok _) = inr (m, a, refl)

  start_read-Started :
      (f : OperationFile)
      → file_at request.operation_id n ≡ f
      → Started now request n (start_read io now request n (read_file f))
  start_read-Started missing e = start_inactive-Started (active_operation n.operations) e refl
  start_read-Started (unreadable x) e = inl refl
  start_read-Started (malformed x) e = inl refl
  start_read-Started (holds operation) e = ground arith

  pub start-Started : Started now request n (start p manager io now request n)
  unfolding start
  start-Started = go (check_start p manager request)
    where
      go : (r : Result (Unit {0})) → Started now request n (start_checked io now request n r)
      go (err e) = inl refl
      go (ok _) = start_read-Started (file_at request.operation_id n) refl

-- A scan without an active operation.
pub none_active :
    (n : Node) → active_operation n.operations ≡ ok none → (id : ℕ) → IsActive id n → ⊥
none_active n a id (operation, e, t) = go (get id n.operations) refl e
  where
    go :
        (o : Option Directory)
        → get id n.operations ≡ o
        → (unwrap_or o empty_directory).operation ≡ holds operation
        → ⊥
    go none g f = cc
    go (some d) g f = cc (active_operation-none n.operations a id d operation g f)

-- A task that begins with a record settles it, or goes on with the operation it has recorded.
abbrev pub Begun : UpdateOperation → Node → Node → Type 0
Begun operation n m =
    IsSettled operation.request n m
    ⊎ ((after : UpdateOperation) × (after.request ≡ operation.request)
        × (after.status ≡ downloading)
        × (file_at operation.request.operation_id m ≡ holds after)
        × Only operation.request.operation_id n m
        × (m.spawned ≡ [])
        × (m.staging ≡ after ∷ []))

module _ (n : Node) (operation : UpdateOperation)
    (held : file_at operation.request.operation_id n ≡ holds operation)
    (no_spawned : n.spawned ≡ []) (no_staging : n.staging ≡ []) where
  pub IsSettled-self : IsSettled operation.request n n
  IsSettled-self = record {
    none_spawned = no_spawned;
    none_staging = no_staging;
    only = λ j. inr refl;
    recorded = (operation, held, refl);
  }

  pub begin_stage-Begun :
      (io failure : Result (Unit {0})) (now : String)
      → Begun operation n (begin_stage io failure now operation.request.operation_id n)
  unfolding begin_stage write
  begin_stage-Begun io failure now =
      rw (get_operation_lem operation.request.operation_id n operation held) (go io)
    where
      after : UpdateOperation
      after = with_status downloading now operation

      go :
          (r : Result (Unit {0}))
          → Begun operation n (
              begin_with failure now operation.request.operation_id after
                (write_next (ok tt, n) r (put_operation after)))
      go (err x) =
          inl (fail-IsSettled operation.request n n failure now (show_error x) IsSettled-self)
      go (ok _) = inr (
        after,
        refl,
        refl,
        file_at-change_directory operation.request.operation_id
            (λ (d : Directory). record d { operation = holds after }) n,
        Only-change_directory operation.request.operation_id
            (λ (d : Directory). record d { operation = holds after }) n,
        no_spawned,
        ap (λ (l : List UpdateOperation). after ∷ l) no_staging,
      )

  change_directory-IsSettled :
      (f : Directory → Directory)
      → ((d : Directory) → (f d).operation ≡ d.operation)
      → (m : Node) → IsSettled operation.request n m
      → IsSettled operation.request n (change_directory operation.request.operation_id f m)
  change_directory-IsSettled f keep m s = record {
    none_spawned = s.none_spawned;
    none_staging = s.none_staging;
    only =
        Only-trans operation.request.operation_id n m
          (change_directory operation.request.operation_id f m) s.only
          (Only-change_directory operation.request.operation_id f m);
    recorded =
        let (o, e, q) = s.recorded in
        (
          o,
          file_at-change_directory operation.request.operation_id f m
              ∙ keep (directory operation.request.operation_id m)
              ∙ e,
          q,
        );
  }

  write_files-IsSettled :
      (p : Platform) (io : StageIo) (now : String) (files : Bytes × String × Bytes)
      → IsSettled operation.request n (write_files p io now operation files n).1
  write_files-IsSettled p io now (manifest, signature, archive) =
      step four io.marker (λ m. record m { markers = insert id tt m.markers })
        (step three io.status (put_operation (with_status staged now operation))
          (field two io.archive (λ d. record d { archive = some archive }) (λ d. refl)
            (field one io.signature (λ d. record d { signature = some signature }) (λ d. refl)
              (field made io.manifest (λ d. record d { manifest = some manifest }) (λ d. refl)
                (field (ok tt, n) io.directory (λ d. d) (λ d. refl) IsSettled-self))))
          (λ m s.
            put_operation-IsSettled operation.request n m (with_status staged now operation) refl
              s))
        (λ m s. record {
          none_spawned = s.none_spawned;
          none_staging = s.none_staging;
          only = s.only;
          recorded = s.recorded;
        })
    where
      id : ℕ
      id = operation.request.operation_id

      made : Result (Unit {0}) × Node
      made = write_next (ok tt, n) io.directory (change_directory id (λ d. d))

      one : Result (Unit {0}) × Node
      one =
          write_next made io.manifest
            (change_directory id (λ d. record d { manifest = some manifest }))

      two : Result (Unit {0}) × Node
      two =
          write_next one io.signature
            (change_directory id (λ d. record d { signature = some signature }))

      three : Result (Unit {0}) × Node
      three =
          write_next two io.archive (change_directory id (λ d. record d { archive = some archive }))

      four : Result (Unit {0}) × Node
      four = write_next three io.status (put_operation (with_status staged now operation))

      step :
          (done : Result (Unit {0}) × Node) (io : Result (Unit {0})) (f : Node → Node)
          → IsSettled operation.request n done.1
          → ((m : Node) → IsSettled operation.request n m → IsSettled operation.request n (f m))
          → IsSettled operation.request n (write_next done io f).1
      step = write_next-IsSettled operation.request n

      field :
          (done : Result (Unit {0}) × Node) (io : Result (Unit {0})) (f : Directory → Directory)
          → ((d : Directory) → (f d).operation ≡ d.operation)
          → IsSettled operation.request n done.1
          → IsSettled operation.request n (write_next done io (change_directory id f)).1
      field done io f keep s =
          step done io (change_directory id f) s (change_directory-IsSettled f keep)

  pub finish_stage-IsSettled :
      (p : Platform) (net : Network) (io : StageIo) (now : String)
      → IsSettled operation.request n (finish_stage p net io now operation n)
  unfolding finish_stage
  finish_stage-IsSettled p net io now = go (download p net operation)
    where
      settle :
          (done : Result (Unit {0}) × Node)
          → IsSettled operation.request n done.1
          → IsSettled operation.request n (finish_with p io now operation.request.operation_id done)
      settle (ok _, m) s = s
      settle (err e, m) s = fail-IsSettled operation.request n m io.failure now (show_error e) s

      go :
          (r : Result (Bytes × String × Bytes))
          → IsSettled operation.request n (finish_downloaded p io now operation n r)
      go (err e) = fail-IsSettled operation.request n n io.failure now (show_error e) IsSettled-self
      go (ok files) =
          settle (write_files p io now operation files n) (write_files-IsSettled p io now files)
