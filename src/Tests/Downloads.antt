-- ===== src/Tests/Downloads.antt =====
-- An upload and a download of src/storage.rs at a concrete input.
use update_delivery_system.Prelude.{◌≡◌, refl, false, none, [], ◌∷◌}
use update_delivery_system.Prelude.Text.{
  trim, trim_start_matches, is_empty, contains_char, any_char, is_control, as_bytes,
}
use update_delivery_system.Prelude.Words.{saturating_add}
use update_delivery_system.Storage.{
  validate_path_segment, validate_platform_key, validate_sha256, normalize_version, parse_version,
  validate_upload_metadata, check_platforms, total_size,
}
use update_delivery_system.Prelude.BTreeMap.{get, insert}
use update_delivery_system.Prelude.BTreeMap.Keys.{text_ord}
use update_delivery_system.Errors.{ok}
use update_delivery_system.Models.{ReleaseManifest, UploadPlatformMetadata}
use update_delivery_system.Storage.{StagedArtifact}
use update_delivery_system.Storage.Repository.{
  put_release, put_checked, put_new, publish_all, find_staged, publish_platform, publish_blob,
  place_blob,
}
use update_delivery_system.Storage.Downloads.{Serves, uploaded_artifact_downloads}
use update_delivery_system.Storage.{Storage}
use update_delivery_system.Tests.Storage
use update_delivery_system.Tests.Storage.{libraries, libraries-ShowParses, stored, bundle, policy}

abbrev platform : UploadPlatformMetadata
platform = record { file_field = "bundle"; file_name = "app.tar.gz"; signature = "signed" }

abbrev file : StagedArtifact
file = record {
  field_name = "bundle";
  path = record {
    len = 9;
    digest = "1111111111111111111111111111111111111111111111111111111111111111";
  };
  size = 9;
  sha256 = "1111111111111111111111111111111111111111111111111111111111111111";
}

abbrev manifest : ReleaseManifest
manifest = record {
  version = "2.0.0";
  pub_date = none;
  notes = "Second";
  withdrawn = false;
  platforms =
      (
        "linux-x64",
        record { file_name = "app.tar.gz"; signature = "signed"; size = 9; sha256 = file.sha256 },
      )
      ∷ [];
  updated_at = 2;
}

accepted :
    (put_release libraries none 2 "2" "beta" Storage.upload bundle policy stored).0 ≡ ok manifest
unfolding put_release put_checked put_new publish_all find_staged publish_platform publish_blob
    place_blob get insert validate_path_segment is_empty contains_char any_char is_control
    validate_upload_metadata normalize_version parse_version trim_start_matches trim check_platforms
    validate_platform_key total_size saturating_add validate_sha256 as_bytes
accepted = refl

abbrev after : Storage
after = (put_release libraries none 2 "2" "beta" Storage.upload bundle policy stored).1

uploaded_artifact_downloads_example :
    Serves libraries "beta" "v2.0.0" "linux-x64" platform file after after.blobs "app.tar.gz"
      (file.sha256, 9)
unfolding get
uploaded_artifact_downloads_example =
    uploaded_artifact_downloads libraries libraries-ShowParses none 2 "2" "beta" "linux-x64"
      Storage.upload bundle policy stored manifest platform file after.blobs "app.tar.gz"
      (file.sha256, 9) (refl, tt) (tt, tt) refl refl accepted
