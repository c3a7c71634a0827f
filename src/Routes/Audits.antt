-- ===== src/Routes/Audits.antt =====
-- The audit events of the handlers of src/routes/mod.rs.
use update_delivery_system.Prelude.{
  ℕ, ◌≡◌, refl, String, true, Option, none, some, List, [], ◌∷◌, ◌++◌,
}
use update_delivery_system.Errors.{UdsError, Result, ok, err, ◌>>◌}
use update_delivery_system.Errors.Outcomes.{>>-succeeds, true_of_ok}
use update_delivery_system.Models.{ReleaseManifest, UploadPolicy, ReleaseUploadMetadata}
use update_delivery_system.Storage.{Libraries, Storage, Staged}
use update_delivery_system.Storage.Repository.{
  put_release, patch_changelog, withdraw_release, copy_release,
}
use update_delivery_system.Shutdown.{ShutdownState, TransferKind, start_transfer, set_field}
use update_delivery_system.Config.{policy}
use update_delivery_system.Config.Validation.{channel_is_allowed}
use update_delivery_system.Routes.Multipart.{Received, Field, Decoder, read_release_multipart}
use update_delivery_system.Routes.Releases.{
  AuditEvent, MutationResponse, AppState, require_allowed_channel, emit_audit, upload_audit,
  answer_mutation, ended, upload_read, upload_checked, upload_release, patch_checked,
  patch_changelog_handler, withdraw_checked, withdraw_release_handler, copy_allowed,
  copy_release_handler,
}
use update_delivery_system.Routes.Requests.{
  AdminRequest, upload, patch, withdraw, copy, dispatch, action_of,
}

-- An answer of success stands for a configured channel and one new audit event that names it, the
-- version and the action; an error leaves no event.
abbrev pub IsAudited : String → AppState → Result MutationResponse × AppState → Type 0
IsAudited action st (err e, st') = st'.audits ≡ st.audits
IsAudited action st (ok r, st') =
    (channel_is_allowed st.config r.channel ≡ true)
    × ((event : AuditEvent) × (st'.audits ≡ st.audits ++ event ∷ [])
        × (event.action ≡ action)
        × (event.channel ≡ r.channel)
        × (event.version ≡ r.version))

answer_mutation-IsAudited :
    (action channel : String) (audit : ReleaseManifest → AuditEvent) (st : AppState)
    (done : Result ReleaseManifest × Storage)
    → channel_is_allowed st.config channel ≡ true
    → ((m : ReleaseManifest)
        → ((audit m).action ≡ action)
          × ((audit m).channel ≡ channel)
          × ((audit m).version ≡ m.version))
    → IsAudited action st (answer_mutation audit channel st done)
unfolding answer_mutation
answer_mutation-IsAudited action channel audit st (err e, s) a f = refl
answer_mutation-IsAudited action channel audit st (ok m, s) a f =
    (a, (audit m, refl, (f m).0, (f m).1, (f m).2))

allowed :
    (st : AppState) (channel : String)
    → require_allowed_channel st channel ≡ ok tt
    → channel_is_allowed st.config channel ≡ true
unfolding require_allowed_channel
allowed st channel h = true_of_ok _ _ h

module _ (lib : Libraries) (io : Option UdsError) (now : ℕ) where
  upload_release-IsAudited :
      (decoder : Decoder) (id : ℕ) (request_id limit channel : String)
      (fields : List (Received Field)) (st : AppState)
      → IsAudited "release_uploaded" st
          (upload_release lib io now decoder id request_id limit channel fields st)
  unfolding upload_release
  upload_release-IsAudited decoder id request_id limit channel fields st =
      go (require_allowed_channel st channel >> policy st.config.upload) refl
    where
      rebase :
          (d : ShutdownState String) (done : Result MutationResponse × AppState)
          → IsAudited "release_uploaded" (record st { shutdown = d }) done
          → IsAudited "release_uploaded" st done
      rebase d (err e, st') a = a
      rebase d (ok r, st') a = a

      read :
          (p : UploadPolicy) (d : ShutdownState String)
          (r : Result (ReleaseUploadMetadata × Staged))
          → channel_is_allowed st.config channel ≡ true
          → IsAudited "release_uploaded" st
              (upload_read lib io now id limit channel p (record st { shutdown = d }) r)
      read p d (err e) a = refl
      read p d (ok (metadata, files)) a =
          let e = set_field (record { transfer_id = id }) "version" metadata.version d in
          rebase e _ (
            answer_mutation-IsAudited "release_uploaded" channel (upload_audit channel)
              (record st { shutdown = e })
              (put_release lib io now limit channel metadata files p st.storage) a
              (λ m. (refl, refl, refl)))

      end :
          (done : Result MutationResponse × AppState)
          → IsAudited "release_uploaded" st done
          → IsAudited "release_uploaded" st (ended id done)
      end (err e, st') a = a
      end (ok r, st') a = a

      go :
          (r : Result UploadPolicy)
          → (require_allowed_channel st channel >> policy st.config.upload) ≡ r
          → IsAudited "release_uploaded" st
              (upload_checked lib io now decoder id request_id limit channel fields st r)
      go (err e) h = refl
      go (ok p) h =
          let (c, _) = >>-succeeds (require_allowed_channel st channel) _ h in
          end _ (
            read p
              (start_transfer id TransferKind.upload request_id (("channel", channel) ∷ [])
                st.shutdown).0
              (read_release_multipart decoder p fields) (allowed st channel c))

  patch-IsAudited :
      (channel version notes : String) (st : AppState)
      → IsAudited "changelog_updated" st
          (patch_changelog_handler lib io now channel version notes st)
  unfolding patch_changelog_handler emit_audit
  patch-IsAudited channel version notes st = go (require_allowed_channel st channel) refl
    where
      go :
          (r : Result (Unit {0}))
          → require_allowed_channel st channel ≡ r
          → IsAudited "changelog_updated" st (patch_checked lib io now channel version notes st r)
      go (err e) h = refl
      go (ok _) h =
          answer_mutation-IsAudited "changelog_updated" channel
            (λ manifest. emit_audit "changelog_updated" channel manifest.version none) st
            (patch_changelog lib io now channel version notes st.storage) (allowed st channel h)
            (λ m. (refl, refl, refl))

  withdraw-IsAudited :
      (channel version : String) (st : AppState)
      → IsAudited "release_withdrawn" st (withdraw_release_handler lib io now channel version st)
  unfolding withdraw_release_handler emit_audit
  withdraw-IsAudited channel version st = go (require_allowed_channel st channel) refl
    where
      go :
          (r : Result (Unit {0}))
          → require_allowed_channel st channel ≡ r
          → IsAudited "release_withdrawn" st (withdraw_checked lib io now channel version st r)
      go (err e) h = refl
      go (ok _) h =
          answer_mutation-IsAudited "release_withdrawn" channel
            (λ manifest. emit_audit "release_withdrawn" channel manifest.version none) st
            (withdraw_release lib io now channel version st.storage) (allowed st channel h)
            (λ m. (refl, refl, refl))

  copy-IsAudited :
      (source_channel target_channel version : String) (st : AppState)
      → IsAudited "release_copied" st
          (copy_release_handler lib io now source_channel target_channel version st)
  unfolding copy_release_handler emit_audit
  copy-IsAudited source_channel target_channel version st =
      go (require_allowed_channel st target_channel >> require_allowed_channel st source_channel)
        refl
    where
      go :
          (r : Result (Unit {0}))
          → (require_allowed_channel st target_channel >> require_allowed_channel st source_channel)
            ≡ r
          → IsAudited "release_copied" st
              (copy_allowed lib io now source_channel target_channel version st r)
      go (err e) h = refl
      go (ok _) h =
          let (a, _) = >>-succeeds (require_allowed_channel st target_channel) _ h in
          answer_mutation-IsAudited "release_copied" target_channel
            (λ manifest.
              emit_audit "release_copied" target_channel manifest.version (some source_channel))
            st (copy_release lib io now source_channel target_channel version st.storage)
            (allowed st target_channel a) (λ m. (refl, refl, refl))

  pub dispatch-IsAudited :
      (request : AdminRequest) (st : AppState)
      → IsAudited (action_of request) st (dispatch lib io now request st)
  unfolding dispatch
  dispatch-IsAudited (upload decoder id request_id limit channel fields) st =
      upload_release-IsAudited decoder id request_id limit channel fields st
  dispatch-IsAudited (patch channel version notes) st = patch-IsAudited channel version notes st
  dispatch-IsAudited (withdraw channel version) st = withdraw-IsAudited channel version st
  dispatch-IsAudited (copy source_channel target_channel version) st =
      copy-IsAudited source_channel target_channel version st
