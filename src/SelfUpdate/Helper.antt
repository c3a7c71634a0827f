-- ===== src/SelfUpdate/Helper.antt =====
-- `apply_staged` of src/self_update.rs: the privileged helper replaces the executable.
-- The outcomes of the calls of the file system and of `systemctl` are arguments.
use update_delivery_system.Prelude.{Bool, Option, none, some, is_some, List, if◌then◌else◌}
use update_delivery_system.Prelude.Text.{trim}
use update_delivery_system.Prelude.BTreeMap.Keys.{id_ord}
use update_delivery_system.Errors.{UdsError, Result, ok, err, io, ◌>>=◌, ◌>>◌}
use update_delivery_system.SelfUpdate.{
  Bytes, Platform, verify_signature, validate_manifest, validate_archive_bytes,
}
use update_delivery_system.SelfUpdate.Archive.{extract_executable}
use update_delivery_system.SelfUpdate.Manager.{Directory}

-- The files `uds`, `uds.previous` and `uds.new`.
pub record Host : Type 0 where
  pub binary : Option Bytes
  pub previous : Option Bytes
  pub candidate : Option Bytes

-- The outcomes for one operation: the writes of its file, the calls of `apply_staged` and of the
-- rollback, whether `systemctl restart` succeeded, and what each look of `wait_active` found.
pub record HelperIo : Type 0 where
  pub write_applying : Result (Unit {0})
  pub write_failed : Result (Unit {0})
  pub write_confirmed : Result (Unit {0})
  pub write_succeeded : Result (Unit {0})
  pub write_rollback : Result (Unit {0})
  pub write_candidate : Result (Unit {0})
  pub set_executable : Result (Unit {0})
  pub remove_previous : Result (Unit {0})
  pub rename_binary : Result (Unit {0})
  pub rename_candidate : Result (Unit {0})
  pub rename_back : Result (Unit {0})
  pub remove_binary : Result (Unit {0})
  pub rename_previous : Result (Unit {0})
  pub restarted : Bool
  pub looks : List Bool
  pub restarted_previous : Bool

abbrev no_such_file : UdsError
no_such_file = io "No such file or directory (os error 2)"

abbrev pub read_present : {A : Type 0} → Option A → Result A
read_present none = err no_such_file
read_present (some a) = ok a

module _ (p : Platform) where
  -- The reads and the checks of `apply_staged`.
  unfoldable pub verified_executable : Directory → Result Bytes
  verified_executable d = read_present d.manifest >>= λ manifest_bytes.
      read_present d.signature >>= λ signature.
      verify_signature p manifest_bytes (trim signature)
      >> (p.parse_manifest manifest_bytes >>= λ manifest.
          validate_manifest p manifest manifest.tag manifest.version >>= λ artifact.
          read_present d.archive >>= λ archive.
          validate_archive_bytes p archive artifact
          >> extract_executable p archive artifact.executable_path)

-- `fs::rename` and `fs::remove_file` of a file that may be missing.
abbrev pub on_file : Option Bytes → Result (Unit {0}) → Result (Unit {0})
on_file none outcome = err no_such_file
on_file (some bytes) outcome = outcome

abbrev pub renamed_in : Host → Result (Unit {0}) → Result (Unit {0}) → Result (Unit {0}) × Host
renamed_in h (ok _) back = (ok tt, record h { binary = h.candidate; candidate = none })
renamed_in h (err e) (ok _) = (err e, record h { binary = h.previous; previous = none })
renamed_in h (err e) (err f) = (err e, h)

abbrev pub renamed_away : HelperIo → Host → Result (Unit {0}) → Result (Unit {0}) × Host
renamed_away fs h (err e) = (err e, h)
renamed_away fs h (ok _) =
    renamed_in (record h { binary = none; previous = h.binary }) fs.rename_candidate fs.rename_back

abbrev pub removed_previous : HelperIo → Host → Result (Unit {0}) → Result (Unit {0}) × Host
removed_previous fs h (err e) = (err e, h)
removed_previous fs h (ok _) =
    let h' = record h { previous = none } in renamed_away fs h' (on_file h'.binary fs.rename_binary)

abbrev pub executable_set : HelperIo → Host → Result (Unit {0}) → Result (Unit {0}) × Host
executable_set fs h (err e) = (err e, h)
executable_set fs h (ok _) =
    removed_previous fs h (if is_some h.previous then fs.remove_previous else ok tt)

abbrev pub candidate_written :
    HelperIo → Bytes → Host → Result (Unit {0}) → Result (Unit {0}) × Host
candidate_written fs executable h (err e) = (err e, h)
candidate_written fs executable h (ok _) =
    executable_set fs (record h { candidate = some executable }) fs.set_executable

-- The changes of `apply_staged`.
unfoldable pub replace_binary : HelperIo → Host → Result Bytes → Result (Unit {0}) × Host
replace_binary fs h (err e) = (err e, h)
replace_binary fs h (ok executable) = candidate_written fs executable h fs.write_candidate

unfoldable pub apply_staged : Platform → HelperIo → Directory → Host → Result (Unit {0}) × Host
unfolding replace_binary
apply_staged p fs d h = replace_binary fs h (verified_executable p d)
