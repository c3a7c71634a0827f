-- ===== src/Routes/Releases.antt =====
-- The handlers of src/routes/mod.rs for releases. A handler returns its answer and the state that it
-- leaves, also where it fails. They run after their extractor has let the request in.
use update_delivery_system.Prelude.{
  ℕ, String, Bool, Option, none, some, List, [], ◌∷◌, ◌++◌, length,
}
use update_delivery_system.Prelude.Text.{◌<>◌}
use update_delivery_system.Prelude.Words.{wrapping_add}
use update_delivery_system.Prelude.BTreeMap.{values}
use update_delivery_system.Errors.{UdsError, Result, ok, err, not_found, ◌>>◌}
use update_delivery_system.Models.{
  ReleaseUploadMetadata, ReleaseManifest, PlatformArtifact, UploadPolicy,
}
use update_delivery_system.Storage.{Libraries, Storage, Staged, require}
use update_delivery_system.Storage.Repository.{
  put_release, patch_changelog, withdraw_release, copy_release,
}
use update_delivery_system.Shutdown.{ShutdownState, upload, start_transfer, set_field, finish}
use update_delivery_system.Stats.{StatsEvent}
use update_delivery_system.Config.{ServerConfig, policy}
use update_delivery_system.Config.Validation.{channel_is_allowed}
use update_delivery_system.Cluster.{ClusterState, replicate_event}
use update_delivery_system.Routes.Multipart.{Received, Field, Decoder, read_release_multipart}

-- The audit event of a mutation with its fields.
pub record AuditEvent : Type 0 where
  pub action : String
  pub channel : String
  pub version : String
  pub source_channel : Option String
  -- The number of platforms and the sum of the sizes, of an upload.
  pub uploaded : Option (ℕ × ℕ)

pub record MutationResponse : Type 0 where
  pub channel : String
  pub version : String
  pub replicated : Bool

-- Of the shared state what the handlers use, with the audit events that are emitted and the
-- statistics events that are recorded so far.
pub record AppState : Type 0 where
  pub config : ServerConfig
  pub storage : Storage
  pub cluster : ClusterState
  pub shutdown : ShutdownState String
  pub audits : List AuditEvent
  pub recorded : List StatsEvent

unfoldable pub require_allowed_channel : AppState → String → Result (Unit {0})
require_allowed_channel st channel =
    require (channel_is_allowed st.config channel)
      (err (not_found ("channel " <> channel <> " is not configured")))

unfoldable pub emit_audit : String → String → String → Option String → AuditEvent
emit_audit action channel version source_channel = record {
  action = action;
  channel = channel;
  version = version;
  source_channel = source_channel;
  uploaded = none;
}

-- `sum::<u64>()`, which wraps around in a release build.
abbrev total_size_of : List PlatformArtifact → ℕ
total_size_of [] = 0
total_size_of (artifact ∷ artifacts) = wrapping_add (total_size_of artifacts) artifact.size

abbrev pub upload_audit : String → ReleaseManifest → AuditEvent
upload_audit channel manifest = record {
  action = "release_uploaded";
  channel = channel;
  version = manifest.version;
  source_channel = none;
  uploaded = some (length manifest.platforms, total_size_of (values manifest.platforms));
}

-- The end of the handlers that change releases: the event is replicated, audited, and answered.
unfoldable pub answer_mutation :
    (ReleaseManifest → AuditEvent)
    → String
    → AppState
    → Result ReleaseManifest × Storage
    → Result MutationResponse × AppState
answer_mutation audit channel st (err e, s) = (err e, record st { storage = s })
answer_mutation audit channel st (ok manifest, s) = (
  ok (record {
    channel = channel;
    version = manifest.version;
    replicated = replicate_event st.cluster;
  }),
  record st { storage = s; audits = st.audits ++ audit manifest ∷ [] },
)

abbrev pub ended : ℕ → Result MutationResponse × AppState → Result MutationResponse × AppState
ended id (r, st) = (r, record st { shutdown = finish id st.shutdown })

abbrev named : ℕ → String → AppState → AppState
named id version st = record st {
  shutdown = set_field (record { transfer_id = id }) "version" version st.shutdown;
}

abbrev transferring : ℕ → String → String → AppState → AppState
transferring id request_id channel st = record st {
  shutdown = (start_transfer id upload request_id (("channel", channel) ∷ []) st.shutdown).0;
}

module _ (lib : Libraries) (io : Option UdsError) (now : ℕ) where
  abbrev pub upload_read :
      ℕ
      → String
      → String
      → UploadPolicy
      → AppState
      → Result (ReleaseUploadMetadata × Staged)
      → Result MutationResponse × AppState
  upload_read id limit channel policy st (err e) = (err e, st)
  upload_read id limit channel policy st (ok (metadata, files)) =
      let st' = named id metadata.version st in
      answer_mutation (upload_audit channel) channel st'
        (put_release lib io now limit channel metadata files policy st'.storage)

  abbrev pub upload_checked :
      Decoder
      → ℕ
      → String
      → String
      → String
      → List (Received Field)
      → AppState
      → Result UploadPolicy
      → Result MutationResponse × AppState
  upload_checked decoder id request_id limit channel fields st (err e) = (err e, st)
  upload_checked decoder id request_id limit channel fields st (ok policy) = ended id (
      upload_read id limit channel policy (transferring id request_id channel st)
        (read_release_multipart decoder policy fields))

  -- `id` is the fresh identifier of the transfer, and `limit` the text of the limit on platforms.
  unfoldable pub upload_release :
      Decoder
      → ℕ
      → String
      → String
      → String
      → List (Received Field)
      → AppState
      → Result MutationResponse × AppState
  upload_release decoder id request_id limit channel fields st =
      upload_checked decoder id request_id limit channel fields st
        (require_allowed_channel st channel >> policy st.config.upload)

  abbrev pub patch_checked :
      String → String → String → AppState → Result (Unit {0}) → Result MutationResponse × AppState
  patch_checked channel version notes st (err e) = (err e, st)
  patch_checked channel version notes st (ok _) =
      answer_mutation (λ manifest. emit_audit "changelog_updated" channel manifest.version none)
        channel st (patch_changelog lib io now channel version notes st.storage)

  unfoldable pub patch_changelog_handler :
      String → String → String → AppState → Result MutationResponse × AppState
  patch_changelog_handler channel version notes st =
      patch_checked channel version notes st (require_allowed_channel st channel)

  abbrev pub withdraw_checked :
      String → String → AppState → Result (Unit {0}) → Result MutationResponse × AppState
  withdraw_checked channel version st (err e) = (err e, st)
  withdraw_checked channel version st (ok _) =
      answer_mutation (λ manifest. emit_audit "release_withdrawn" channel manifest.version none)
        channel st (withdraw_release lib io now channel version st.storage)

  unfoldable pub withdraw_release_handler :
      String → String → AppState → Result MutationResponse × AppState
  withdraw_release_handler channel version st =
      withdraw_checked channel version st (require_allowed_channel st channel)

  abbrev pub copy_allowed :
      String → String → String → AppState → Result (Unit {0}) → Result MutationResponse × AppState
  copy_allowed source_channel target_channel version st (err e) = (err e, st)
  copy_allowed source_channel target_channel version st (ok _) =
      answer_mutation
        (λ manifest.
          emit_audit "release_copied" target_channel manifest.version (some source_channel))
        target_channel st (copy_release lib io now source_channel target_channel version st.storage)

  unfoldable pub copy_release_handler :
      String → String → String → AppState → Result MutationResponse × AppState
  copy_release_handler source_channel target_channel version st =
      copy_allowed source_channel target_channel version st
        (require_allowed_channel st target_channel >> require_allowed_channel st source_channel)
