-- ===== src/Storage/Repository.antt =====
-- `Storage` of src/storage.rs: the operations on releases and blobs. They hold the mutation lock, so
-- that each is one step. `io` is the outcome of the change that makes a manifest visible; other calls
-- of the file system succeed. A directory is listed in the order of its names.
pub mod Publication
unfoldable pub use Publication.*
use update_delivery_system.Prelude.{
  ℕ, String, Bool, true, false, ◌&&◌, ◌==◌, Option, none, some, is_some, unwrap_or, List, [], ◌∷◌,
  ◌++◌, map, not, ◌||◌, str_eq, if◌then◌else◌,
}
use update_delivery_system.Prelude.Text.{◌<>◌, starts_with}
use update_delivery_system.Prelude.BTreeMap.{get, insert, keys, values}
use update_delivery_system.Prelude.BTreeMap.Keys.{text_ord}
use update_delivery_system.Errors.{
  UdsError, Result, ok, err, ◌>>=◌, ◌>>◌, bad_request, not_found, conflict, storage,
}
use update_delivery_system.Models.{
  UploadPlatformMetadata, ReleaseUploadMetadata, PlatformArtifact, ReleaseManifest, UploadPolicy,
}
use update_delivery_system.Storage.{
  Libraries, File, StagedArtifact, Storage, Staged, require, validate_path_segment,
  validate_platform_key, validate_sha256, normalize_version, validate_upload_metadata,
}

-- The digests that the manifests refer to.
abbrev pub digests : List ReleaseManifest → List String
digests [] = []
digests (manifest ∷ manifests) =
    map (λ artifact. artifact.sha256) (values manifest.platforms) ++ digests manifests

abbrev pub listed : String → List String → Bool
listed name [] = false
listed name (d ∷ ds) = if str_eq d name then true else listed name ds

abbrev pub keep_listed : List String → Blobs → Blobs
keep_listed ds [] = []
keep_listed ds ((name, file) ∷ blobs) =
    let rest = keep_listed ds blobs in
    if starts_with ".tmp-" name || not (listed name ds) then rest else (name, file) ∷ rest

module _ (lib : Libraries) where
  abbrev pub found : String → String → Option ReleaseManifest → Result ReleaseManifest
  found channel version none =
      err (not_found ("release " <> channel <> "/" <> version <> " not found"))
  found channel version (some manifest) = ok manifest

  unfoldable pub load_manifest : String → String → Storage → Result ReleaseManifest
  load_manifest channel version s =
      validate_path_segment channel "channel" >> normalize_version lib version >>= λ v.
      found channel v (get v (channel_dir channel s))

  unfoldable pub load_all : String → List String → Storage → Result (List ReleaseManifest)
  load_all channel [] s = ok []
  load_all channel (version ∷ versions) s = load_manifest channel version s >>= λ manifest.
      load_all channel versions s >>= λ rest. ok (manifest ∷ rest)

  unfoldable pub list_releases : String → Storage → Result (List ReleaseManifest)
  list_releases channel s =
      validate_path_segment channel "channel" >> load_all channel (keys (channel_dir channel s)) s

  abbrev pub new_manifest : ℕ → String → ReleaseUploadMetadata → Platforms → ReleaseManifest
  new_manifest now version metadata platforms = record {
    version = version;
    pub_date = metadata.pub_date;
    notes = metadata.notes;
    withdrawn = false;
    platforms = platforms;
    updated_at = now;
  }

  -- `now` is the time of the call.
  unfoldable pub put_new :
      Option UdsError
      → ℕ
      → String
      → String
      → ReleaseUploadMetadata
      → Storage
      → Result Platforms × Blobs
      → Result ReleaseManifest × Storage
  put_new io now channel version metadata s (err e, blobs) = (err e, record s { blobs = blobs })
  put_new io now channel version metadata s (ok platforms, blobs) =
      let manifest = new_manifest now version metadata platforms in
      let published = record s { blobs = blobs } in
      publish io manifest published (save_manifest channel version manifest published)

  unfoldable pub put_checked :
      Option UdsError
      → ℕ
      → String
      → ReleaseUploadMetadata
      → Staged
      → Storage
      → Result String
      → Result ReleaseManifest × Storage
  put_checked io now channel metadata files s (err e) = (err e, s)
  put_checked io now channel metadata files s (ok version) =
      if is_some (get version (channel_dir channel s))
      then (err (already_exists channel version), s)
      else put_new io now channel version metadata s
          (publish_all metadata.platforms files [] s.blobs)

  unfoldable pub put_release :
      Option UdsError
      → ℕ
      → String
      → String
      → ReleaseUploadMetadata
      → Staged
      → UploadPolicy
      → Storage
      → Result ReleaseManifest × Storage
  put_release io now limit channel metadata files policy s =
      put_checked io now channel metadata files s (
        validate_path_segment channel "channel"
        >> validate_upload_metadata lib limit metadata files policy
        >> normalize_version lib metadata.version)

  -- A change of one manifest by `f`.
  unfoldable pub rewrite :
      Option UdsError
      → (ReleaseManifest → ReleaseManifest)
      → String
      → Storage
      → String
      → Result ReleaseManifest
      → Result ReleaseManifest × Storage
  rewrite io f channel s version (err e) = (err e, s)
  rewrite io f channel s version (ok manifest) =
      publish io (f manifest) s (save_manifest channel version (f manifest) s)

  unfoldable pub update_checked :
      Option UdsError
      → (ReleaseManifest → ReleaseManifest)
      → String
      → Storage
      → Result String
      → Result ReleaseManifest × Storage
  update_checked io f channel s (err e) = (err e, s)
  update_checked io f channel s (ok version) =
      rewrite io f channel s version (load_manifest channel version s)

  unfoldable pub update_release :
      Option UdsError
      → (ReleaseManifest → ReleaseManifest)
      → String
      → String
      → Storage
      → Result ReleaseManifest × Storage
  update_release io f channel version s =
      update_checked io f channel s (normalize_version lib version)

  unfoldable pub patch_changelog :
      Option UdsError → ℕ → String → String → String → Storage → Result ReleaseManifest × Storage
  patch_changelog io now channel version notes s =
      update_release io (λ m. record m { notes = notes; updated_at = now }) channel version s

  unfoldable pub withdraw_release :
      Option UdsError → ℕ → String → String → Storage → Result ReleaseManifest × Storage
  withdraw_release io now channel version s =
      update_release io (λ m. record m { withdrawn = true; updated_at = now }) channel version s

  unfoldable pub copy_verified :
      Option UdsError
      → ℕ
      → String
      → String
      → Storage
      → Result ReleaseManifest
      → Result ReleaseManifest × Storage
  copy_verified io now target_channel version s (err e) = (err e, s)
  copy_verified io now target_channel version s (ok manifest) =
      let copied = record manifest { updated_at = now } in
      publish io copied s (save_manifest target_channel version copied s)

  unfoldable pub copy_checked :
      Option UdsError
      → ℕ
      → String
      → String
      → Storage
      → Result String
      → Result ReleaseManifest × Storage
  copy_checked io now source_channel target_channel s (err e) = (err e, s)
  copy_checked io now source_channel target_channel s (ok version) =
      if is_some (get version (channel_dir target_channel s))
      then (err (already_exists target_channel version), s)
      else copy_verified io now target_channel version s (
          load_manifest source_channel version s >>= λ manifest.
          verify_blobs manifest.platforms s.blobs >> ok manifest)

  unfoldable pub copy_release :
      Option UdsError → ℕ → String → String → String → Storage → Result ReleaseManifest × Storage
  copy_release io now source_channel target_channel version s =
      copy_checked io now source_channel target_channel s (
        validate_path_segment source_channel "source_channel"
        >> validate_path_segment target_channel "target_channel"
        >> normalize_version lib version)

  abbrev pub platform_artifact :
      String → String → String → Option PlatformArtifact → Result PlatformArtifact
  platform_artifact platform channel version none = err (
      not_found ("platform " <> platform <> " not found for release " <> channel <> "/" <> version))
  platform_artifact platform channel version (some artifact) = ok artifact

  -- A digest stands for the path of its blob.
  unfoldable pub artifact_path : String → String → String → String → Storage → Result (String × ℕ)
  artifact_path channel version platform file_name s =
      validate_path_segment channel "channel"
      >> validate_platform_key platform
      >> validate_path_segment file_name "file_name"
      >> normalize_version lib version
      >>= λ v. load_manifest channel v s >>= λ manifest.
          platform_artifact platform channel v (get platform manifest.platforms) >>= λ artifact.
          require (str_eq artifact.file_name file_name)
            (err (not_found ("artifact " <> file_name <> " not found")))
          >> verify_blob artifact s.blobs
          >> ok (artifact.sha256, artifact.size)

  unfoldable pub referenced : List String → Storage → Result (List String)
  referenced [] s = ok []
  referenced (channel ∷ channels) s = list_releases channel s >>= λ manifests.
      referenced channels s >>= λ rest. ok (digests manifests ++ rest)

  unfoldable pub prune_unreferenced_blobs : Storage → Result Storage
  prune_unreferenced_blobs s =
      referenced (keys s.releases) s >>= λ ds. ok (record s { blobs = keep_listed ds s.blobs })
