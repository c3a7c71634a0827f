-- ===== src/Routes/Requests.antt =====
-- The administrative requests of src/routes/mod.rs that change releases, through the middleware that
-- refuses them during a shutdown and the extractor `AdminAuth`.
use update_delivery_system.Prelude.{ℕ, String, not, Option, List, str_eq, if◌then◌else◌}
use update_delivery_system.Errors.{UdsError, Result, ok, err}
use update_delivery_system.Auth.{ActorIdentity}
use update_delivery_system.Storage.{Libraries}
use update_delivery_system.Routes.Multipart.{Received, Field, Decoder}
use update_delivery_system.Routes.Releases.{
  MutationResponse, AppState, upload_release, patch_changelog_handler, withdraw_release_handler,
  copy_release_handler,
}
use update_delivery_system.Shutdown.{is_draining}

-- A response of which the body is not given, or the answer of the next handler.
pub data Response (A : Type 0) : Type 0 where
  unavailable : String → Response A
  answered : A → Response A

-- The middleware; the status text stands in the body of an answer 503 with `retry-after`.
unfoldable pub reject_during_shutdown :
    {A : Type 0} → String → (AppState → A × AppState) → AppState → Response A × AppState
reject_during_shutdown path next st =
    if not (is_draining st.shutdown)
    then (answered (next st).0, (next st).1)
    else (unavailable (if str_eq path "/health" then "draining" else "service_unavailable"), st)

pub data AdminRequest : Type 0 where
  upload : Decoder → ℕ → String → String → String → List (Received Field) → AdminRequest
  patch : String → String → String → AdminRequest
  withdraw : String → String → AdminRequest
  copy : String → String → String → AdminRequest

module _ (lib : Libraries) (io : Option UdsError) (now : ℕ) where
  unfoldable pub dispatch : AdminRequest → AppState → Result MutationResponse × AppState
  dispatch (upload decoder id request_id limit channel fields) st =
      upload_release lib io now decoder id request_id limit channel fields st
  dispatch (patch channel version notes) st =
      patch_changelog_handler lib io now channel version notes st
  dispatch (withdraw channel version) st = withdraw_release_handler lib io now channel version st
  dispatch (copy source_channel target_channel version) st =
      copy_release_handler lib io now source_channel target_channel version st

  abbrev pub admitted :
      AdminRequest → AppState → Result ActorIdentity → Result MutationResponse × AppState
  admitted request st (err e) = (err e, st)
  admitted request st (ok actor) = dispatch request st

  -- A request at a path, with the outcome of its extractor.
  unfoldable pub serve :
      String
      → Result ActorIdentity
      → AdminRequest
      → AppState
      → Response (Result MutationResponse) × AppState
  serve path auth request st = reject_during_shutdown path (λ s. admitted request s auth) st

-- The audit's name of a request.
abbrev pub action_of : AdminRequest → String
action_of (upload decoder id request_id limit channel fields) = "release_uploaded"
action_of (patch channel version notes) = "changelog_updated"
action_of (withdraw channel version) = "release_withdrawn"
action_of (copy source_channel target_channel version) = "release_copied"
