-- ===== src/Routes/Checks.antt =====
-- The handlers of src/routes/mod.rs that answer from the releases and change none.
use update_delivery_system.Prelude.{String, Option, none, some, List, [], ◌∷◌, ◌++◌}
use update_delivery_system.Errors.{Result, ok, err, ◌>>◌}
use update_delivery_system.Models.{ReleaseListEntry, TauriUpdateResponse, UploadPolicy}
use update_delivery_system.Storage.{Libraries}
use update_delivery_system.Storage.Updates.{update_for, release_list}
use update_delivery_system.Stats.{StatsEvent, update_check}
use update_delivery_system.Config.{policy}
use update_delivery_system.Routes.Releases.{AppState, require_allowed_channel}

unfoldable pub get_upload_policy : AppState → Result UploadPolicy
get_upload_policy st = policy st.config.upload

unfoldable pub list_releases_handler :
    Libraries → String → AppState → Result (List ReleaseListEntry)
list_releases_handler lib channel st =
    require_allowed_channel st channel >> release_list lib channel st.storage

abbrev check_event : String → String → String → StatsEvent
check_event channel target arch = record {
  kind = update_check;
  channel = channel;
  version = none;
  target = some target;
  arch = some arch;
  bytes = 0;
}

abbrev pub answer_check :
    String
    → String
    → String
    → AppState
    → Result (Option TauriUpdateResponse)
    → Result (Option TauriUpdateResponse) × AppState
answer_check channel target arch st (err e) = (err e, st)
answer_check channel target arch st (ok update) =
    (ok update, record st { recorded = st.recorded ++ check_event channel target arch ∷ [] })

-- An answer without an update has the status 204.
unfoldable pub check_update :
    Libraries
    → String
    → String
    → String
    → String
    → AppState
    → Result (Option TauriUpdateResponse) × AppState
check_update lib channel target arch current_version st = answer_check channel target arch st (
    require_allowed_channel st channel
    >> update_for lib st.config.public_base_url channel target arch current_version st.storage)
