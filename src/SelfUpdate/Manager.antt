-- ===== src/SelfUpdate/Manager.antt =====
-- `UpdateManager` of src/self_update.rs: the directories of the operations, the acceptance of a
-- request, and the staging task. The outcomes of the calls of the file system are arguments.
use update_delivery_system.Prelude.{
  ℕ, ◌==◌, String, Bool, true, false, not, ◌&&◌, Option, none, some, unwrap_or, List, [], ◌∷◌, ◌++◌,
  str_eq, if◌then◌else◌,
}
use update_delivery_system.Prelude.BTreeMap.{get, insert}
use update_delivery_system.Prelude.BTreeMap.Keys.{id_ord}
use update_delivery_system.Errors.{
  UdsError, Result, ok, err, ◌>>=◌, ◌>>◌, bad_request, not_found, conflict,
}
use update_delivery_system.Storage.{require}
use update_delivery_system.SelfUpdate.{
  Bytes, Platform, StartUpdateRequest, UpdateOperation, OperationStatus, queued, failed, terminal,
  sanitize_error,
}
use update_delivery_system.SelfUpdate.Releases.{unavailable_reason}

-- What reading `operation.json` gives.
pub data OperationFile : Type 0 where
  missing : OperationFile
  unreadable malformed : UdsError → OperationFile
  holds : UpdateOperation → OperationFile

-- The directory of an operation: `operation.json`, `latest.json`, `latest.json.sig`,
-- `archive.tar.gz`.
pub record Directory : Type 0 where
  pub operation : OperationFile
  pub manifest : Option Bytes
  pub signature : Option String
  pub archive : Option Bytes

-- The directories by the identifiers that name them, and the files `.apply`; the staging tasks that
-- are spawned, and those that have begun, with their operation. An insertion keeps the order.
pub record Node : Type 0 where
  pub operations : List (ℕ × Directory)
  pub markers : List (ℕ × Unit {0})
  pub spawned : List ℕ
  pub staging : List UpdateOperation

pub record UpdateManager : Type 0 where
  pub node_id : ℕ
  pub supported : Bool

abbrev pub empty_directory : Directory
empty_directory = record { operation = missing; manifest = none; signature = none; archive = none }

abbrev pub directory : ℕ → Node → Directory
directory id n = unwrap_or (get id n.operations) empty_directory

abbrev pub file_at : ℕ → Node → OperationFile
file_at id n = (directory id n).operation

abbrev pub read_file : OperationFile → Result (Option UpdateOperation)
read_file missing = ok none
read_file (unreadable e) = err e
read_file (malformed e) = err e
read_file (holds operation) = ok (some operation)

abbrev pub read : ℕ → Node → Result (Option UpdateOperation)
read id n = read_file (file_at id n)

abbrev existing : Option UpdateOperation → Result UpdateOperation
existing none = err (not_found "update operation does not exist")
existing (some operation) = ok operation

unfoldable pub get_operation : ℕ → Node → Result UpdateOperation
get_operation id n = read id n >>= λ found. existing found

abbrev pub change_directory : ℕ → (Directory → Directory) → Node → Node
change_directory id f n = record n { operations = insert id (f (directory id n)) n.operations }

abbrev pub put_operation : UpdateOperation → Node → Node
put_operation operation n =
    change_directory operation.request.operation_id (λ d. record d { operation = holds operation })
      n

-- An atomic write that is reached if those before it succeed.
abbrev pub write_next :
    Result (Unit {0}) × Node → Result (Unit {0}) → (Node → Node) → Result (Unit {0}) × Node
write_next (err e, n) io f = (err e, n)
write_next (ok _, n) (err e) f = (err e, n)
write_next (ok _, n) (ok _) f = (ok tt, f n)

unfoldable pub write : Result (Unit {0}) → UpdateOperation → Node → Result (Unit {0}) × Node
write io operation n = write_next (ok tt, n) io (put_operation operation)

abbrev pub with_status : OperationStatus → String → UpdateOperation → UpdateOperation
with_status status now operation = record operation { status = status; updated_at = now }

abbrev pub failed_with : String → String → UpdateOperation → UpdateOperation
failed_with now message operation = record operation {
  status = failed;
  updated_at = now;
  error = some (sanitize_error message);
}

abbrev fail_found : Result (Unit {0}) → String → String → Node → Result UpdateOperation → Node
fail_found io now message n (err e) = n
fail_found io now message n (ok operation) = (write io (failed_with now message operation) n).1

-- `let _ = manager.fail(id, ..)`.
unfoldable pub fail : Result (Unit {0}) → String → ℕ → String → Node → Node
unfolding write get_operation
fail io now id message n = fail_found io now message n (get_operation id n)

abbrev pub active_found :
    Result (Option UpdateOperation)
    → Result (Option UpdateOperation)
    → Result (Option UpdateOperation)
active_found (err e) rest = err e
active_found (ok none) rest = rest
active_found (ok (some operation)) rest =
    if not (terminal operation.status) then ok (some operation) else rest

-- The loop over the entries of the directory.
unfoldable pub active_operation : List (ℕ × Directory) → Result (Option UpdateOperation)
active_operation [] = ok none
active_operation ((id, d) ∷ entries) =
    active_found (read_file d.operation) (active_operation entries)

abbrev same_bool : Bool → Bool → Bool
same_bool true b = b
same_bool false b = not b

-- `==` of two requests.
abbrev pub same_request : StartUpdateRequest → StartUpdateRequest → Bool
same_request a b =
    a.operation_id == b.operation_id
    && a.node_id == b.node_id
    && str_eq a.version b.version
    && same_bool a.allow_prerelease b.allow_prerelease

abbrev pub new_operation : String → StartUpdateRequest → UpdateOperation
new_operation now request = record {
  request = request;
  status = queued;
  created_at = now;
  updated_at = now;
  error = none;
}

-- `tokio::spawn` after the write.
abbrev pub spawn_stage : UpdateOperation → Result (Unit {0}) × Node → Result UpdateOperation × Node
spawn_stage operation (err e, n) = (err e, n)
spawn_stage operation (ok _, n) =
    (ok operation, record n { spawned = n.spawned ++ operation.request.operation_id ∷ [] })

abbrev pub start_inactive :
    Result (Unit {0})
    → String
    → StartUpdateRequest
    → Node
    → Result (Option UpdateOperation)
    → Result UpdateOperation × Node
start_inactive io now request n (err e) = (err e, n)
start_inactive io now request n (ok (some active)) =
    (err (conflict "this node already has an active update operation"), n)
start_inactive io now request n (ok none) =
    spawn_stage (new_operation now request) (write io (new_operation now request) n)

-- The answer to a known identifier: whether its request is the same.
abbrev pub repeated : UpdateOperation → Node → Bool → Result UpdateOperation × Node
repeated existing n true = (ok existing, n)
repeated existing n false = (err (conflict "operation ID was already used with different input"), n)

abbrev pub start_read :
    Result (Unit {0})
    → String
    → StartUpdateRequest
    → Node
    → Result (Option UpdateOperation)
    → Result UpdateOperation × Node
start_read io now request n (err e) = (err e, n)
start_read io now request n (ok (some existing)) =
    repeated existing n (same_request existing.request request)
start_read io now request n (ok none) =
    start_inactive io now request n (active_operation n.operations)

abbrev pub start_checked :
    Result (Unit {0})
    → String
    → StartUpdateRequest
    → Node
    → Result (Unit {0})
    → Result UpdateOperation × Node
start_checked io now request n (err e) = (err e, n)
start_checked io now request n (ok _) = start_read io now request n (read request.operation_id n)

module _ (p : Platform) where
  abbrev parsed : Result p.Version → Result (Unit {0})
  parsed (err e) = err (bad_request "version must be valid SemVer")
  parsed (ok version) = ok tt

  unfoldable pub check_start : UpdateManager → StartUpdateRequest → Result (Unit {0})
  check_start manager request =
      require manager.supported (err (bad_request unavailable_reason))
      >> require (request.node_id == manager.node_id)
          (err (bad_request "the requested node ID is not this single node"))
      >> parsed (p.parse_semver request.version)

  -- `io` is the outcome of the write.
  unfoldable pub start :
      UpdateManager
      → Result (Unit {0})
      → String
      → StartUpdateRequest
      → Node
      → Result UpdateOperation × Node
  unfolding check_start write
  start manager io now request n = start_checked io now request n (check_start manager request)
