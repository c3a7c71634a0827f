-- ===== src/Tests/SelfUpdate.antt =====
-- src/self_update.rs at concrete inputs. A version is its major number, a manifest is one byte, and
-- an archive of one byte holds one executable with that byte.
use update_delivery_system.Prelude.{
  ℕ, ◌≡◌, refl, ◌⊎◌, inl, ◌≢◌, String, true, false, Option, none, some, List, [], ◌∷◌, ltb, str_eq,
  if◌then◌else◌,
}
use update_delivery_system.Prelude.Text.{is_empty, split, strip_prefix}
use update_delivery_system.Prelude.BTreeMap.{get, insert}
use update_delivery_system.Prelude.BTreeMap.Keys.{id_ord}
use update_delivery_system.Errors.{Result, ok, err, conflict}
use update_delivery_system.SelfUpdate.{
  Bytes, Platform, UpdateManifest, UpdateArtifact, regular_file, Entry, StartUpdateRequest,
  UpdateOperation, queued, staged, terminal,
}
use update_delivery_system.SelfUpdate.Archive.{
  extract_executable, extract_all, extract_entry, is_unsafe_path, components, same_path,
}
use update_delivery_system.SelfUpdate.Extraction.{IsBelow, HoldsOne, extract_executable_seen}
use update_delivery_system.SelfUpdate.Manager.{
  holds, Directory, Node, UpdateManager, file_at, write, check_start, active_operation, start,
}
use update_delivery_system.SelfUpdate.Helper.{Host, HelperIo}
use update_delivery_system.SelfUpdate.Pending.{apply_directory}
use update_delivery_system.SelfUpdate.Applying.{Outcome, apply_directory-Outcome}
use update_delivery_system.SelfUpdate.Steps.{
  empty_node, start_requested, Reach, here, next, IsActive,
}
use update_delivery_system.SelfUpdate.Requests.{at_most_one_active, start_is_idempotent}
use update_delivery_system.SelfUpdate.Abandoned.{restart_blocks_updates}

abbrev parse_number : String → Result ℕ
parse_number version = if str_eq version "2.0.0" then ok 2 else ok 1

abbrev entry : ℕ → Entry
entry byte = record {
  path = some "release/uds";
  entry_type = regular_file;
  content = ok (byte ∷ []);
}

abbrev entries_of : Bytes → Option (List (Option Entry))
entries_of [] = none
entries_of (byte ∷ bytes) = some (some (entry byte) ∷ [])

abbrev artifact : UpdateArtifact
artifact = record {
  url = "https://uds/archive";
  sha256 = "AB";
  size = 1;
  archive_format = "tar.gz";
  executable_path = "release/uds";
  self_update_supported = true;
}

abbrev manifest : UpdateManifest
manifest = record {
  schema_version = 1;
  version = "2.0.0";
  build = 2;
  tag = "v2.0.0";
  notes = "";
  artifacts = ("linux-x86_64", artifact) ∷ [];
}

abbrev platform : Platform
platform = record {
  running_version = "1.0.0";
  running_build = 1;
  arch = "x86_64";
  Version = ℕ;
  parse_semver = parse_number;
  show_version = λ v. if ltb v 2 then "1.0.0" else "2.0.0";
  version_lt = ltb;
  Key = Unit {0};
  Signature = Unit {0};
  update_public_key = some tt;
  decode_base64 = λ s. some [];
  signature_from_slice = λ bytes. some tt;
  verify = λ key bytes s. true;
  sha256_hex = λ bytes. "ab";
  parse_manifest = λ bytes. ok manifest;
  list_entries = entries_of;
}

executable_extracted : extract_executable platform (7 ∷ []) "release/uds" ≡ ok (7 ∷ [])
unfolding extract_executable extract_all extract_entry is_unsafe_path components same_path split
    strip_prefix is_empty
executable_extracted = refl

extract_executable_seen_example :
    IsBelow "release/uds"
    × ((es : List (Option Entry)) × (some (some (entry 7) ∷ []) ≡ some es)
        × HoldsOne "release/uds" es (7 ∷ []))
extract_executable_seen_example =
    extract_executable_seen platform (7 ∷ []) "release/uds" (7 ∷ []) executable_extracted

abbrev request : StartUpdateRequest
request = record { operation_id = 5; node_id = 9; version = "2.0.0"; allow_prerelease = false }

abbrev operation : UpdateOperation
operation = record {
  request = request;
  status = staged;
  created_at = "now";
  updated_at = "now";
  error = none;
}

abbrev signed : Directory
signed = record {
  operation = holds operation;
  manifest = some (1 ∷ []);
  signature = some "signature";
  archive = some (7 ∷ []);
}

abbrev host : Host
host = record { binary = some (3 ∷ []); previous = none; candidate = none }

abbrev calls : HelperIo
calls = record {
  write_applying = ok tt;
  write_failed = ok tt;
  write_confirmed = ok tt;
  write_succeeded = ok tt;
  write_rollback = ok tt;
  write_candidate = ok tt;
  set_executable = ok tt;
  remove_previous = ok tt;
  rename_binary = ok tt;
  rename_candidate = ok tt;
  rename_back = ok tt;
  remove_binary = ok tt;
  rename_previous = ok tt;
  restarted = true;
  looks = true ∷ true ∷ [];
  restarted_previous = true;
}

apply_directory-Outcome_example :
    Outcome platform signed (3 ∷ []) operation (apply_directory platform calls "later" signed host)
apply_directory-Outcome_example =
    apply_directory-Outcome platform calls "later" signed host (3 ∷ []) operation refl refl refl

abbrev manager : UpdateManager
manager = record { node_id = 9; supported = true }

abbrev accepted : UpdateOperation
accepted = record operation { status = queued }

abbrev waiting : Node
waiting = record {
  operations =
      (5, record { operation = holds accepted; manifest = none; signature = none; archive = none })
      ∷ [];
  markers = [];
  spawned = 5 ∷ [];
  staging = [];
}

started : start platform manager (ok tt) "now" request empty_node ≡ (ok accepted, waiting)
unfolding start write check_start active_operation get insert
started = refl

reached :
    Reach platform manager empty_node (start platform manager (ok tt) "now" request empty_node).1
reached = next here (start_requested (ok tt) "now" request)

active : IsActive 5 (start platform manager (ok tt) "now" request empty_node).1
unfolding start write check_start active_operation get insert terminal
active = (accepted, refl, refl)

at_most_one_active_example : 5 ≡ accepted.request.operation_id
at_most_one_active_example =
    at_most_one_active platform manager (start platform manager (ok tt) "now" request empty_node).1
      5 5 reached active active

request_passes : check_start platform manager request ≡ ok tt
unfolding check_start
request_passes = refl

start_is_idempotent_example :
    (after : UpdateOperation) × (after.request ≡ request)
    × (((request ≡ request)
          × (start platform manager (ok tt) "later" request waiting ≡ (ok after, waiting)))
        ⊎ ((request ≢ request)
            × (start platform manager (ok tt) "later" request waiting
                ≡ (err (conflict "operation ID was already used with different input"), waiting))))
start_is_idempotent_example =
    start_is_idempotent platform manager (ok tt) "now" request empty_node waiting waiting accepted
      (ok tt) "later" request here started here refl request_passes

waiting_file : file_at 5 waiting ≡ holds accepted
unfolding get
waiting_file = refl

restart_blocks_updates_example :
    (file_at 5 (record waiting { spawned = [] }) ≡ holds accepted)
    × ((start platform manager
          (ok tt)
          "later"
          (record request { operation_id = 6 })
          (record waiting { spawned = [] })).1
        ≡ record waiting { spawned = [] })
restart_blocks_updates_example =
    restart_blocks_updates platform manager 5 accepted waiting (record waiting { spawned = [] })
      (ok tt) "later" (record request { operation_id = 6 }) waiting_file (inl refl) here
