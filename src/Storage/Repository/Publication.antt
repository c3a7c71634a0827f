-- ===== src/Storage/Repository/Publication.antt =====
-- The blobs and manifests of src/storage.rs: how an upload's artifacts enter the blob storage, and how
-- a manifest is saved.
use update_delivery_system.Prelude.{
  String, ◌&&◌, ◌==◌, Option, none, some, unwrap_or, List, [], ◌∷◌, str_eq,
}
use update_delivery_system.Prelude.Text.{◌<>◌}
use update_delivery_system.Prelude.BTreeMap.{get, insert}
use update_delivery_system.Prelude.BTreeMap.Keys.{text_ord}
use update_delivery_system.Errors.{UdsError, Result, ok, err, ◌>>◌, bad_request, conflict, storage}
use update_delivery_system.Models.{UploadPlatformMetadata, PlatformArtifact, ReleaseManifest}
use update_delivery_system.Storage.{File, StagedArtifact, Storage, Staged, require, validate_sha256}

abbrev pub Blobs : Type 0
Blobs = List (String × File)

abbrev pub Platforms : Type 0
Platforms = List (String × PlatformArtifact)

-- The directory of a channel, which may be missing.
abbrev pub channel_dir : String → Storage → List (String × ReleaseManifest)
channel_dir channel s = unwrap_or (get channel s.releases) []

abbrev pub already_exists : String → String → UdsError
already_exists channel version =
    conflict ("release " <> channel <> "/" <> version <> " already exists")

unfoldable pub save_manifest : String → String → ReleaseManifest → Storage → Storage
save_manifest channel version manifest s = record s {
  releases = insert channel (insert version manifest (channel_dir channel s)) s.releases;
}

-- The last step of a mutation.
abbrev pub publish :
    Option UdsError → ReleaseManifest → Storage → Storage → Result ReleaseManifest × Storage
publish none manifest before after = (ok manifest, after)
publish (some e) manifest before after = (err e, before)

unfoldable pub verify_staged_against_existing : StagedArtifact → File → Result (Unit {0})
verify_staged_against_existing staged file =
    require (file.len == staged.size && str_eq file.digest staged.sha256)
      (err (storage ("blob " <> staged.sha256 <> " failed integrity validation")))

unfoldable pub place_blob : StagedArtifact → Blobs → Option File → Result (Unit {0}) × Blobs
place_blob staged blobs none = (ok tt, insert staged.sha256 staged.path blobs)
place_blob staged blobs (some file) = (verify_staged_against_existing staged file, blobs)

abbrev pub after_check : StagedArtifact → Blobs → Result (Unit {0}) → Result (Unit {0}) × Blobs
after_check staged blobs (err e) = (err e, blobs)
after_check staged blobs (ok _) = place_blob staged blobs (get staged.sha256 blobs)

unfoldable pub publish_blob : StagedArtifact → Blobs → Result (Unit {0}) × Blobs
publish_blob staged blobs = after_check staged blobs (validate_sha256 staged.sha256)

abbrev pub artifact_of : UploadPlatformMetadata → StagedArtifact → PlatformArtifact
artifact_of upload staged = record {
  file_name = upload.file_name;
  signature = upload.signature;
  size = staged.size;
  sha256 = staged.sha256;
}

-- One turn of the loop of `put_release`; `next` are the turns that follow.
unfoldable pub publish_platform :
    (Platforms → Blobs → Result Platforms × Blobs)
    → String
    → UploadPlatformMetadata
    → StagedArtifact
    → Platforms
    → Result (Unit {0}) × Blobs
    → Result Platforms × Blobs
publish_platform next key upload staged platforms (err e, blobs) = (err e, blobs)
publish_platform next key upload staged platforms (ok _, blobs) =
    next (insert key (artifact_of upload staged) platforms) blobs

unfoldable pub find_staged :
    (Platforms → Blobs → Result Platforms × Blobs)
    → String
    → UploadPlatformMetadata
    → Platforms
    → Blobs
    → Option StagedArtifact
    → Result Platforms × Blobs
find_staged next key upload platforms blobs none =
    (err (bad_request ("missing multipart file field '" <> upload.file_field <> "'")), blobs)
find_staged next key upload platforms blobs (some staged) =
    publish_platform next key upload staged platforms (publish_blob staged blobs)

unfoldable pub publish_all :
    List (String × UploadPlatformMetadata) → Staged → Platforms → Blobs → Result Platforms × Blobs
publish_all [] files platforms blobs = (ok platforms, blobs)
publish_all ((key, upload) ∷ rest) files platforms blobs =
    find_staged (publish_all rest files) key upload platforms blobs (get upload.file_field files)

abbrev pub check_blob : PlatformArtifact → Option File → Result (Unit {0})
check_blob artifact none = err (storage ("artifact blob " <> artifact.sha256 <> " is unavailable"))
check_blob artifact (some file) =
    require (file.len == artifact.size)
      (err (storage ("artifact blob " <> artifact.sha256 <> " has an unexpected size")))

unfoldable pub verify_blob : PlatformArtifact → Blobs → Result (Unit {0})
verify_blob artifact blobs =
    validate_sha256 artifact.sha256 >> check_blob artifact (get artifact.sha256 blobs)

unfoldable pub verify_blobs : Platforms → Blobs → Result (Unit {0})
verify_blobs [] blobs = ok tt
verify_blobs ((key, artifact) ∷ platforms) blobs =
    verify_blob artifact blobs >> verify_blobs platforms blobs
