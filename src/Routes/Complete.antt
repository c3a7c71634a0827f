-- ===== src/Routes/Complete.antt =====
-- The handlers of src/routes/mod.rs keep the storage complete.
use update_delivery_system.Prelude.{
  ℕ, ◌≡◌, refl, String, Bool, true, false, not, Option, List, [], ◌∷◌, str_eq, All-map,
  if◌then◌else◌,
}
use update_delivery_system.Errors.{UdsError, Result, ok, err, ◌>>◌}
use update_delivery_system.Errors.Outcomes.{>>-succeeds}
use update_delivery_system.Models.{ReleaseManifest, UploadPolicy, ReleaseUploadMetadata}
use update_delivery_system.Auth.{ActorIdentity}
use update_delivery_system.Storage.{Libraries, Storage, Staged, StagedArtifact, File}
use update_delivery_system.Storage.Repository.{patch_changelog, withdraw_release, copy_release}
use update_delivery_system.Shutdown.{ShutdownState, TransferKind, start_transfer}
use update_delivery_system.Config.{policy}
use update_delivery_system.Routes.Multipart.{Received, Field, Decoder, read_release_multipart}
use update_delivery_system.Routes.Releases.{
  AuditEvent, MutationResponse, AppState, require_allowed_channel, upload_audit, answer_mutation,
  ended, upload_read, upload_checked, upload_release, patch_checked, patch_changelog_handler,
  withdraw_checked, withdraw_release_handler, copy_allowed, copy_release_handler,
}
use update_delivery_system.Routes.Requests.{
  AdminRequest, upload, patch, withdraw, copy, dispatch, Response, unavailable, answered,
  reject_during_shutdown, admitted, serve,
}
use update_delivery_system.Storage.Mutations
use update_delivery_system.Storage.Mutations.{mutate, mutate_all}
use update_delivery_system.Storage.Blobs.{IsComplete}
use update_delivery_system.Storage.Completeness.{mutations-IsComplete}
use update_delivery_system.Routes.Measured.{IsField, IsStaged}
use update_delivery_system.Prelude.{sym, ap, ◌∙◌}
use update_delivery_system.Routes.Uploads.{read_release_multipart_fits}

answer_mutation-IsComplete :
    (channel : String) (audit : ReleaseManifest → AuditEvent) (st : AppState)
    (done : Result ReleaseManifest × Storage)
    → IsComplete done.1
    → IsComplete (answer_mutation audit channel st done).1.storage
unfolding answer_mutation
answer_mutation-IsComplete channel audit st (err e, s) c = c
answer_mutation-IsComplete channel audit st (ok m, s) c = c

module _ (lib : Libraries) (io : Option UdsError) (now : ℕ) (st : AppState)
    (complete : IsComplete st.storage) where
  upload-IsComplete :
      (decoder : Decoder) (id : ℕ) (request_id limit channel : String)
      (fields : List (Received Field))
      → IsComplete
          (upload_release lib io now decoder id request_id limit channel fields st).1.storage
  unfolding upload_release mutate mutate_all
  upload-IsComplete decoder id request_id limit channel fields =
      go (require_allowed_channel st channel >> policy st.config.upload) refl
    where
      end :
          (done : Result MutationResponse × AppState)
          → IsComplete done.1.storage
          → IsComplete (ended id done).1.storage
      end (r, st') c = c

      measured :
          (p : UploadPolicy) (staged : StagedArtifact)
          → IsStaged decoder p (λ field. IsField field fields) staged
          → staged.path.len ≡ staged.size
      measured p staged (bytes, arrived, path, size, digest, within) =
          ap (λ (f : File). f.len) path ∙ sym size

      read :
          (p : UploadPolicy) (d : ShutdownState String)
          (r : Result (ReleaseUploadMetadata × Staged))
          → read_release_multipart decoder p fields ≡ r
          → policy st.config.upload ≡ ok p
          → IsComplete
              (upload_read lib io now id limit channel p (record st { shutdown = d }) r).1.storage
      read p d (err e) q f = complete
      read p d (ok (metadata, files)) q f =
          let fits =
            read_release_multipart_fits decoder st.config.upload p fields metadata files f q in
          answer_mutation-IsComplete channel (upload_audit channel) _ _ (
            mutations-IsComplete lib (Mutations.put io now limit channel metadata files p ∷ [])
              st.storage (All-map _ _ files (λ e s. measured p e.1 s) fits.0, tt) complete)

      go :
          (r : Result UploadPolicy)
          → (require_allowed_channel st channel >> policy st.config.upload) ≡ r
          → IsComplete
              (upload_checked lib io now decoder id request_id limit channel fields st r).1.storage
      go (err e) h = complete
      go (ok p) h =
          let (_, f) = >>-succeeds (require_allowed_channel st channel) _ h in
          let d =
            (start_transfer id TransferKind.upload request_id (("channel", channel) ∷ [])
              st.shutdown).0 in
          end
            (upload_read lib io now id limit channel p (record st { shutdown = d })
              (read_release_multipart decoder p fields))
            (read p d (read_release_multipart decoder p fields) refl f)

  patch-IsComplete :
      (channel version notes : String)
      → IsComplete (patch_changelog_handler lib io now channel version notes st).1.storage
  unfolding patch_changelog_handler mutate mutate_all
  patch-IsComplete channel version notes = go (require_allowed_channel st channel)
    where
      go :
          (r : Result (Unit {0}))
          → IsComplete (patch_checked lib io now channel version notes st r).1.storage
      go (err e) = complete
      go (ok _) =
          answer_mutation-IsComplete channel _ st
            (patch_changelog lib io now channel version notes st.storage)
            (mutations-IsComplete lib (Mutations.patch io now channel version notes ∷ []) st.storage
              (tt, tt) complete)

  withdraw-IsComplete :
      (channel version : String)
      → IsComplete (withdraw_release_handler lib io now channel version st).1.storage
  unfolding withdraw_release_handler mutate mutate_all
  withdraw-IsComplete channel version = go (require_allowed_channel st channel)
    where
      go :
          (r : Result (Unit {0}))
          → IsComplete (withdraw_checked lib io now channel version st r).1.storage
      go (err e) = complete
      go (ok _) =
          answer_mutation-IsComplete channel _ st
            (withdraw_release lib io now channel version st.storage)
            (mutations-IsComplete lib (Mutations.withdraw io now channel version ∷ []) st.storage
              (tt, tt) complete)

  copy-IsComplete :
      (source_channel target_channel version : String)
      → IsComplete
          (copy_release_handler lib io now source_channel target_channel version st).1.storage
  unfolding copy_release_handler mutate mutate_all
  copy-IsComplete source_channel target_channel version =
      go (require_allowed_channel st target_channel >> require_allowed_channel st source_channel)
    where
      go :
          (r : Result (Unit {0}))
          → IsComplete
              (copy_allowed lib io now source_channel target_channel version st r).1.storage
      go (err e) = complete
      go (ok _) =
          answer_mutation-IsComplete target_channel _ st
            (copy_release lib io now source_channel target_channel version st.storage)
            (mutations-IsComplete lib
              (Mutations.copy io now source_channel target_channel version ∷ []) st.storage (tt, tt)
              complete)

  dispatch-IsComplete :
      (request : AdminRequest) → IsComplete (dispatch lib io now request st).1.storage
  unfolding dispatch
  dispatch-IsComplete (upload decoder id request_id limit channel fields) =
      upload-IsComplete decoder id request_id limit channel fields
  dispatch-IsComplete (patch channel version notes) = patch-IsComplete channel version notes
  dispatch-IsComplete (withdraw channel version) = withdraw-IsComplete channel version
  dispatch-IsComplete (copy source_channel target_channel version) =
      copy-IsComplete source_channel target_channel version

-- Whatever bytes an administrative request brings, and whatever its outcome is: if every artifact of
-- every release is in the blob storage with its length, this is so after the request.
pub serve-IsComplete :
    (lib : Libraries) (io : Option UdsError) (now : ℕ) (path : String) (auth : Result ActorIdentity)
    (request : AdminRequest) (st : AppState)
    → IsComplete st.storage
    → IsComplete (serve lib io now path auth request st).1.storage
unfolding serve reject_during_shutdown
serve-IsComplete lib io now path auth request st c = go st.shutdown.draining auth
  where
    choice : Bool → Result ActorIdentity → Response (Result MutationResponse) × AppState
    choice t auth =
        if not t
        then (
          answered (admitted lib io now request st auth).0,
          (admitted lib io now request st auth).1,
        )
        else (unavailable (if str_eq path "/health" then "draining" else "service_unavailable"), st)

    go : (t : Bool) (auth : Result ActorIdentity) → IsComplete (choice t auth).1.storage
    go true auth = c
    go false (err x) = c
    go false (ok actor) = dispatch-IsComplete lib io now st c request
