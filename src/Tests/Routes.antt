-- ===== src/Tests/Routes.antt =====
-- src/routes/mod.rs at concrete inputs.
use update_delivery_system.Prelude.{◌≡◌, refl, true, none, some, List, [], ◌∷◌, ◌++◌}
use update_delivery_system.Prelude.Text.{is_empty, trim, as_bytes}
use update_delivery_system.Prelude.BTreeMap.{get, insert}
use update_delivery_system.Prelude.BTreeMap.Keys.{text_ord}
use update_delivery_system.Prelude.Words.{saturating_add}
use update_delivery_system.Errors.{ok}
use update_delivery_system.Auth.{
  admin, owner_identity, to_metadata, verifier, require_text, generate_admin_token,
}
use update_delivery_system.Auth.Records.{find}
use update_delivery_system.Auth.Store.{
  healthy, persist, commit, create, authenticate, fleet_snapshot,
}
use update_delivery_system.Storage.{Staged}
use update_delivery_system.Storage.Blobs.{IsComplete}
use update_delivery_system.Shutdown.{default}
use update_delivery_system.Config.Defaults.{default_upload}
use update_delivery_system.Cluster.{ClusterState, Post, replicate_auth_snapshot, post_all}
use update_delivery_system.Cluster.Confirmation.{IsConfirmed}
use update_delivery_system.Routes.Multipart.{
  got, Field, Received, Decoder, read_release_multipart, read_fields, read_field, read_metadata,
  read_chunks, write_chunk,
}
use update_delivery_system.Routes.Uploads.{FitsPolicy, read_release_multipart_fits}
use update_delivery_system.Routes.Tokens.{
  TokenAudit, emit_token_audit, create_admin_token, confirmed,
}
use update_delivery_system.Routes.Revealed.{revealed_token_authenticates}
use update_delivery_system.Routes.Releases.{AppState}
use update_delivery_system.Routes.Requests.{upload, withdraw, serve}
use update_delivery_system.Routes.Serving.{IsServed, serve-IsServed}
use update_delivery_system.Routes.Complete.{serve-IsComplete}
use update_delivery_system.Tests.Auth.Fixtures.{
  crates, json, uuid_text, empty_store, token_7, record_7,
}
use update_delivery_system.Tests.Config.{configured, default_policy, policy_of_defaults}
use update_delivery_system.Tests.Storage
use update_delivery_system.Tests.Storage.{libraries, stored, stored-IsComplete}

abbrev decoder : Decoder
decoder = record {
  sha256_hex = λ bytes. "00";
  parse_metadata = λ bytes. some Storage.upload;
  metadata_error = λ bytes. "expected value";
}

abbrev fields : List (Received Field)
fields =
    got (record { name = some "metadata"; chunks = got (1 ∷ 2 ∷ []) ∷ [] })
    ∷ got (record { name = some "bundle"; chunks = got (3 ∷ []) ∷ got (4 ∷ 5 ∷ []) ∷ [] })
    ∷ []

abbrev received : Staged
received =
    (
      "bundle",
      record {
        field_name = "bundle";
        path = record { len = 3; digest = "00" };
        size = 3;
        sha256 = "00";
      },
    )
    ∷ []

fields_read : read_release_multipart decoder default_policy fields ≡ ok (Storage.upload, received)
unfolding read_release_multipart read_fields read_field read_metadata read_chunks write_chunk get
    insert saturating_add
fields_read = refl

read_release_multipart_fits_example :
    FitsPolicy decoder default_policy fields Storage.upload received
read_release_multipart_fits_example =
    read_release_multipart_fits decoder default_upload default_policy fields Storage.upload received
      policy_of_defaults fields_read

abbrev cluster : ClusterState
cluster = record {
  node_id = "node";
  enabled = true;
  peers = ("http://10.0.0.2/", tt) ∷ [];
  cluster_token = some "a-long-cluster-token";
}

abbrev state : AppState
state = record {
  config = configured;
  storage = stored;
  cluster = cluster;
  shutdown = default;
  audits = [];
  recorded = [];
}

abbrev empty_audits : List TokenAudit
empty_audits = []

abbrev recorded_7 : List TokenAudit
recorded_7 = emit_token_audit "admin_token_created" (to_metadata record_7) none ∷ []

abbrev accepts : Post
accepts = λ url token records. true

revealed :
    create_admin_token crates json accepts cluster healthy
      (ok "secret")
      7
      40
      100
      "Thorsten"
      "daily work"
      empty_store
      empty_audits
    ≡ (
      ok (to_metadata record_7, token_7),
      (create crates json healthy (ok "secret") 7 40 100 "Thorsten" "daily work" empty_store).1,
      recorded_7,
    )
unfolding create_admin_token confirmed create commit persist require_text generate_admin_token
    is_empty trim verifier as_bytes replicate_auth_snapshot post_all fleet_snapshot emit_token_audit
revealed = refl

revealed_token_authenticates_example :
    (authenticate crates json token_7
        (create crates json healthy (ok "secret") 7 40 100 "Thorsten" "daily work" empty_store).1
      ≡ some (record { actor_type = admin; token_id = some 7; token_name = some "Thorsten" }, true))
    × IsConfirmed accepts
        (fleet_snapshot json
          (create crates json healthy (ok "secret") 7 40 100 "Thorsten" "daily work" empty_store).1)
        cluster
    × (recorded_7 ≡ empty_audits ++ recorded_7)
unfolding find is_empty trim
revealed_token_authenticates_example =
    revealed_token_authenticates crates json accepts cluster healthy 7 40 100 "Thorsten"
      "daily work" "secret" token_7 (to_metadata record_7) empty_store
      (create crates json healthy (ok "secret") 7 40 100 "Thorsten" "daily work" empty_store).1
      empty_audits recorded_7 uuid_text refl refl revealed

serve-IsServed_example : IsServed (ok owner_identity) "release_withdrawn" state (
    serve libraries none 5 "/admin/v1/releases"
      (ok owner_identity)
      (withdraw "stable" "1.0.0")
      state)
serve-IsServed_example =
    serve-IsServed libraries none 5 "/admin/v1/releases" (ok owner_identity)
      (withdraw "stable" "1.0.0") state

serve-IsComplete_example :
    IsComplete
      (serve libraries none 5 "/admin/v1/releases"
        (ok owner_identity)
        (upload decoder 1 "request" "32" "beta" fields)
        state).1.storage
serve-IsComplete_example =
    serve-IsComplete libraries none 5 "/admin/v1/releases" (ok owner_identity)
      (upload decoder 1 "request" "32" "beta" fields) state stored-IsComplete
