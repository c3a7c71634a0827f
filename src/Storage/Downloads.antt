-- ===== src/Storage/Downloads.antt =====
-- `put_release` and `artifact_path` of src/storage.rs: what is uploaded can be downloaded.
use mathlib.Core.Path.{subst}
use update_delivery_system.Prelude.{◌↔◌}
use update_delivery_system.Storage.{File}
use update_delivery_system.Prelude.{
  ℕ, ◌≡◌, refl, ap, ◌∙◌, String, Bool, true, false, Option, none, some, is_some, List, [], eq_iff,
  is_some, if◌then◌else◌,
}
use update_delivery_system.Prelude.BTreeMap.{get}
use update_delivery_system.Prelude.BTreeMap.Sorted.{IsSorted}
use update_delivery_system.Prelude.BTreeMap.Keys.{text_ord}
use update_delivery_system.Errors.{UdsError, Result, ok, err, ◌>>◌}
use update_delivery_system.Errors.Outcomes.{>>-succeeds}
use update_delivery_system.Models.{
  UploadPlatformMetadata, ReleaseUploadMetadata, ReleaseManifest, UploadPolicy,
}
use update_delivery_system.Storage.{
  Libraries, Storage, Staged, StagedArtifact, validate_path_segment, normalize_version,
  validate_upload_metadata,
}
use update_delivery_system.Storage.Repository.{
  Blobs, Platforms, artifact_of, publish_all, channel_dir, artifact_path, put_release, put_checked,
  put_new, save_manifest, new_manifest, already_exists,
}
use update_delivery_system.Storage.Blobs.{
  get-AllValues, IsBlob, AreMeasured, AllPublished, publish_all-AllPublished,
}
use update_delivery_system.Storage.Permanence.{normalize_version_idem}
use update_delivery_system.Storage.Kept.{release_at, ShowParses, release_at-save_manifest}
use update_delivery_system.Storage.Accepted.{
  publish_all-published, check_platforms-valid, validate_upload_metadata-platforms,
}
use update_delivery_system.Storage.Served.{artifact_path_iff}

-- What the storage after an upload serves of one of its artifacts, when its blobs are others.
abbrev pub Serves :
    Libraries
    → String
    → String
    → String
    → UploadPlatformMetadata
    → StagedArtifact
    → Storage
    → List (String × File)
    → String
    → String × ℕ
    → Type 0
Serves lib channel version platform upload staged s blobs name answer =
    IsBlob s.blobs (artifact_of upload staged)
    × ((artifact_path lib channel version platform name (record s { blobs = blobs }) ≡ ok answer)
        ↔ ((name ≡ upload.file_name)
            × (answer ≡ (staged.sha256, staged.size))
            × IsBlob blobs (artifact_of upload staged)))

-- A round trip: an artifact of an upload that `put_release` accepts is in the blob storage with its
-- length; and under the uploaded version, whatever becomes of the blobs, a download of the platform
-- succeeds exactly under the uploaded file name and while the artifact is in the blob storage with its
-- length, with the digest and the size of the staged file. The staged sizes are those of the files,
-- the platforms are a map, and a version parses from its text.
pub uploaded_artifact_downloads :
    (lib : Libraries) (law : ShowParses lib) (io : Option UdsError) (now : ℕ)
    (limit channel platform : String) (metadata : ReleaseUploadMetadata) (files : Staged)
    (policy : UploadPolicy) (s : Storage) (manifest : ReleaseManifest)
    (upload : UploadPlatformMetadata) (staged : StagedArtifact) (blobs : List (String × File))
    (name : String) (answer : String × ℕ)
    → AreMeasured files
    → IsSorted metadata.platforms
    → get platform metadata.platforms ≡ some upload
    → get upload.file_field files ≡ some staged
    → (put_release lib io now limit channel metadata files policy s).0 ≡ ok manifest
    → Serves lib channel metadata.version platform upload staged
        (put_release lib io now limit channel metadata files policy s).1
        blobs
        name
        answer
unfolding put_release put_checked put_new save_manifest
uploaded_artifact_downloads lib law io now limit channel platform metadata files policy s manifest
      upload staged blobs name answer measured sorted p f h =
    checked
      (validate_path_segment channel "channel"
        >> validate_upload_metadata lib limit metadata files policy
        >> normalize_version lib metadata.version)
      refl h
  where
    Served : Storage → Type 0
    Served t = Serves lib channel metadata.version platform upload staged t blobs name answer

    published :
        (v : String)
        → (validate_path_segment channel "channel"
            >> validate_upload_metadata lib limit metadata files policy
            >> normalize_version lib metadata.version)
          ≡ ok v
        → (r : Result Platforms × Blobs) → publish_all metadata.platforms files [] s.blobs ≡ r
        → (io : Option UdsError) → (put_new lib io now channel v metadata s r).0 ≡ ok manifest
        → Served (put_new lib io now channel v metadata s r).1
    published v q (err e, b) r io g = cc
    published v q (ok platforms, b) r (some e) g = cc
    published v q (ok platforms, b) r none g =
        let (front, n) = >>-succeeds _ (normalize_version lib metadata.version) q in
        let (c, valid) = >>-succeeds (validate_path_segment channel "channel") _ front in
        let (k, file) =
          check_platforms-valid platform upload metadata.platforms p
            (validate_upload_metadata-platforms lib limit metadata files policy valid) in
        let (there, digest) =
          publish_all-published platform upload staged metadata.platforms files [] platforms s.blobs
            sorted p f (ap (λ (x : Result Platforms × Blobs). x.0) r) in
        let artifact = artifact_of upload staged in
        let m = new_manifest lib now v metadata platforms in
        let all : AllPublished s.blobs (ok platforms, b) =
          subst (AllPublished s.blobs) r
            (publish_all-AllPublished metadata.platforms files [] s.blobs measured tt) in
        let blob = get-AllValues (IsBlob b) platform artifact platforms all.are_blobs there in
        let kept : Storage = save_manifest channel v m (record s { blobs = b }) in
        let found : release_at channel v kept ≡ some m =
          release_at-save_manifest channel v channel v m (record s { blobs = b })
          ∙ rw ((eq_iff channel channel).1 refl) (rw ((eq_iff v v).1 refl) refl) in
        (
          blob,
          artifact_path_iff lib (record kept { blobs = blobs }) channel metadata.version v platform
              m artifact c k file n (normalize_version_idem lib law metadata.version v n) found
              there digest name answer,
        )

    checked :
        (r : Result String)
        → (validate_path_segment channel "channel"
            >> validate_upload_metadata lib limit metadata files policy
            >> normalize_version lib metadata.version)
          ≡ r
        → (put_checked lib io now channel metadata files s r).0 ≡ ok manifest
        → Served (put_checked lib io now channel metadata files s r).1
    checked (err e) q g = cc
    checked (ok v) q g = fresh (is_some (get v (channel_dir channel s))) g
      where
        fresh :
            (t : Bool)
            → (if t
                then (err (already_exists channel v), s)
                else put_new lib io now channel v metadata s
                    (publish_all metadata.platforms files [] s.blobs)).0
              ≡ ok manifest
            → Served
                (if t
                  then (err (already_exists channel v), s)
                  else put_new lib io now channel v metadata s
                      (publish_all metadata.platforms files [] s.blobs)).1
        fresh true g = cc
        fresh false g = published v q (publish_all metadata.platforms files [] s.blobs) refl io g
