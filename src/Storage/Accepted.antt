-- ===== src/Storage/Accepted.antt =====
-- What an upload that `put_release` of src/storage.rs accepts says of each of its platforms.
use mathlib.Core.Option.{some-injective}
use update_delivery_system.Prelude.{
  ◌≡◌, refl, sym, ap, ◌∙◌, String, Bool, true, false, Option, none, some, List, [], ◌∷◌, arith,
  eq_iff, str_eq, if◌then◌else◌,
}
use update_delivery_system.Prelude.BTreeMap.{get, insert, get-insert}
use update_delivery_system.Prelude.BTreeMap.Sorted.{IsSorted, get-AllAbove}
use update_delivery_system.Prelude.BTreeMap.Keys.{text_ord}
use update_delivery_system.Errors.{Result, ok, err}
use update_delivery_system.Errors.Outcomes.{>>-succeeds, >>=-succeeds}
use update_delivery_system.Models.{UploadPlatformMetadata, ReleaseUploadMetadata, UploadPolicy}
use update_delivery_system.Storage.{
  Libraries, Staged, StagedArtifact, validate_path_segment, validate_platform_key, validate_sha256,
  normalize_version, validate_upload_metadata, check_platforms,
}
use update_delivery_system.Storage.Repository.{
  Blobs, Platforms, artifact_of, publish_platform, find_staged, publish_all, publish_blob,
  after_check, place_blob,
}

-- One turn of the loop of `put_release` that succeeds: the platform is staged, its digest is
-- well-formed, and the turns that follow succeed with it.
Turn :
    String
    → UploadPlatformMetadata
    → List (String × UploadPlatformMetadata)
    → Staged
    → Platforms
    → Platforms
    → Type 0
Turn key upload rest files platforms result =
    (staged : StagedArtifact) × (get upload.file_field files ≡ some staged)
    × (validate_sha256 staged.sha256 ≡ ok tt)
    × ((b : Blobs) × ((publish_all rest files (insert key (artifact_of upload staged) platforms)
            b).0
          ≡ ok result))

publish_all-Turn :
    (key : String) (upload : UploadPlatformMetadata) (rest : List (String × UploadPlatformMetadata))
    (files : Staged) (platforms result : Platforms) (blobs : Blobs)
    → (publish_all ((key, upload) ∷ rest) files platforms blobs).0 ≡ ok result
    → Turn key upload rest files platforms result
unfolding Turn publish_all find_staged publish_platform publish_blob
publish_all-Turn key upload rest files platforms result blobs h =
    found (get upload.file_field files) refl h
  where
    placed :
        (staged : StagedArtifact) (r : Result (Unit {0}) × Blobs)
        → (publish_platform (publish_all rest files) key upload staged platforms r).0 ≡ ok result
        → (b : Blobs) × ((publish_all rest files
              (insert key (artifact_of upload staged) platforms)
              b).0
            ≡ ok result)
    placed staged (err x, b) g = cc
    placed staged (ok _, b) g = (b, g)

    checked :
        (staged : StagedArtifact)
        → get upload.file_field files ≡ some staged
        → (r : Result (Unit {0})) → validate_sha256 staged.sha256 ≡ r
        → (publish_platform
            (publish_all rest files)
            key
            upload
            staged
            platforms
            (after_check staged blobs r)).0
          ≡ ok result
        → Turn key upload rest files platforms result
    checked staged e (err x) v g = cc
    checked staged e (ok _) v g =
        (staged, e, v, placed staged (place_blob staged blobs (get staged.sha256 blobs)) g)

    found :
        (o : Option StagedArtifact)
        → get upload.file_field files ≡ o
        → (find_staged (publish_all rest files) key upload platforms blobs o).0 ≡ ok result
        → Turn key upload rest files platforms result
    found none e g = cc
    found (some staged) e g = checked staged e (validate_sha256 staged.sha256) refl g

-- The turns for other platforms leave a platform alone.
publish_all-absent :
    (key : String) (uploads : List (String × UploadPlatformMetadata)) (files : Staged)
    (platforms result : Platforms) (blobs : Blobs)
    → get key uploads ≡ none
    → (publish_all uploads files platforms blobs).0 ≡ ok result
    → get key result ≡ get key platforms
unfolding get publish_all Turn
publish_all-absent key [] files platforms result blobs a h = ap (get key) (cc)
publish_all-absent key ((j, u) ∷ rest) files platforms result blobs a h =
    let (staged, e, v, (b, g)) = publish_all-Turn j u rest files platforms result blobs h in
    let other : str_eq j key ≡ false = ground arith in
    let later : get key rest ≡ none = ground arith in
    publish_all-absent key rest files (insert j (artifact_of u staged) platforms) result b later g
    ∙ get-insert j key (artifact_of u staged) platforms
    ∙ ap (λ t. if t then some (artifact_of u staged) else get key platforms) other

-- What a successful publication keeps of an uploaded platform.
pub publish_all-published :
    (key : String) (upload : UploadPlatformMetadata) (staged : StagedArtifact)
    (uploads : List (String × UploadPlatformMetadata)) (files : Staged)
    (platforms result : Platforms) (blobs : Blobs)
    → IsSorted uploads
    → get key uploads ≡ some upload
    → get upload.file_field files ≡ some staged
    → (publish_all uploads files platforms blobs).0 ≡ ok result
    → (get key result ≡ some (artifact_of upload staged)) × (validate_sha256 staged.sha256 ≡ ok tt)
unfolding get Turn
publish_all-published key upload staged [] files platforms result blobs s a f h = cc
publish_all-published key upload staged ((j, u) ∷ rest) files platforms result blobs (above, s) a f
      h =
    go (publish_all-Turn j u rest files platforms result blobs h) (str_eq j key) refl a
      (publish_all-published key upload staged rest files)
  where
    go :
        Turn j u rest files platforms result
        → (t : Bool) → str_eq j key ≡ t
        → (if t then some u else get key rest) ≡ some upload
        → ((platforms result : Platforms) (blobs : Blobs)
            → IsSorted rest
            → get key rest ≡ some upload
            → get upload.file_field files ≡ some staged
            → (publish_all rest files platforms blobs).0 ≡ ok result
            → (get key result ≡ some (artifact_of upload staged))
              × (validate_sha256 staged.sha256 ≡ ok tt))
        → (get key result ≡ some (artifact_of upload staged))
          × (validate_sha256 staged.sha256 ≡ ok tt)
    go (placed, e, v, (b, g)) false t a next =
        next (insert j (artifact_of u placed) platforms) result b s a f g
    go (placed, e, v, (b, g)) true t a next =
        let same : u ≡ upload = some-injective u upload a in
        let one : placed ≡ staged =
          some-injective placed staged
            (sym e ∙ ap (λ (x : UploadPlatformMetadata). get x.file_field files) same ∙ f) in
        let key_same : j ≡ key = (eq_iff j key).0 t in
        let absent : get key rest ≡ none =
          ap (λ k. get k rest) (sym key_same) ∙ get-AllAbove j rest above in
        (
          publish_all-absent key rest files (insert j (artifact_of u placed) platforms) result b
                absent g
              ∙ get-insert j key (artifact_of u placed) platforms
              ∙ ap (λ t. if t then some (artifact_of u placed) else get key platforms) t
              ∙ ap some (cc),
          ap (λ (x : StagedArtifact). validate_sha256 x.sha256) (sym one) ∙ v,
        )

pub check_platforms-valid :
    (key : String) (upload : UploadPlatformMetadata)
    (uploads : List (String × UploadPlatformMetadata))
    → get key uploads ≡ some upload
    → check_platforms uploads ≡ ok tt
    → (validate_platform_key key ≡ ok tt)
      × (validate_path_segment upload.file_name "file_name" ≡ ok tt)
unfolding get check_platforms
check_platforms-valid key upload [] a h = cc
check_platforms-valid key upload ((j, u) ∷ rest) a h =
    let (front, later) = >>-succeeds _ (check_platforms rest) h in
    let (names, signed) = >>-succeeds _ _ front in
    let (platform, file) = >>-succeeds _ _ names in
    go (str_eq j key) refl a platform file (λ b. check_platforms-valid key upload rest b later)
  where
    go :
        (t : Bool)
        → str_eq j key ≡ t
        → (if t then some u else get key rest) ≡ some upload
        → validate_platform_key j ≡ ok tt
        → validate_path_segment u.file_name "file_name" ≡ ok tt
        → (get key rest ≡ some upload
            → (validate_platform_key key ≡ ok tt)
              × (validate_path_segment upload.file_name "file_name" ≡ ok tt))
        → (validate_platform_key key ≡ ok tt)
          × (validate_path_segment upload.file_name "file_name" ≡ ok tt)
    go false t a platform file next = next a
    go true t a platform file next = (
      ap validate_platform_key (sym ((eq_iff j key).0 t)) ∙ platform,
      ap (λ (x : UploadPlatformMetadata). validate_path_segment x.file_name "file_name")
            (sym (some-injective u upload a))
          ∙ file,
    )

pub validate_upload_metadata-platforms :
    (lib : Libraries) (limit : String) (metadata : ReleaseUploadMetadata) (files : Staged)
    (policy : UploadPolicy)
    → validate_upload_metadata lib limit metadata files policy ≡ ok tt
    → check_platforms metadata.platforms ≡ ok tt
unfolding validate_upload_metadata
validate_upload_metadata-platforms lib limit metadata files policy h =
    let (_, _, g) = >>=-succeeds (normalize_version lib metadata.version) _ h in
    let (front, _) = >>-succeeds _ _ g in let (_, checked) = >>-succeeds _ _ front in checked
