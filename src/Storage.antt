-- ===== src/Storage.antt =====
-- src/storage.rs: the data of the storage, and the checks of names, versions and uploads.
pub mod Repository
pub mod Updates
pub mod Sorting
pub mod Pruning
pub mod Kept
pub mod Permanence
pub mod Mutations
pub mod Completeness
pub mod Accepted
pub mod Served
pub mod Downloads
pub mod Blobs
pub mod Newest
pub mod Offers
use update_delivery_system.Prelude.{
  ℕ, ◌≡◌, String, Bool, true, false, not, ◌&&◌, ◌||◌, ◌==◌, Option, none, some, List, [], ◌∷◌,
  length, all, leb, ltb, str_eq, if◌then◌else◌,
}
use update_delivery_system.Prelude.Text.{
  ◌<>◌, is_empty, contains_char, any_char, is_control, trim, trim_start_matches, as_bytes,
}
use update_delivery_system.Prelude.Words.{saturating_add}
use update_delivery_system.Prelude.BTreeMap.{insert, keys, values}
use update_delivery_system.Prelude.BTreeMap.Keys.{text_ord}
use update_delivery_system.Errors.{
  Result, ok, err, ◌>>=◌, ◌>>◌, bad_request, payload_too_large, storage,
}
use update_delivery_system.Models.{
  ReleaseUploadMetadata, UploadPlatformMetadata, ReleaseManifest, UploadPolicy,
}

-- `semver::Version` with its order, `OffsetDateTime::parse`, and `url::Url` with extended segments.
pub record Libraries : Type 1 where
  pub Version : Type 0
  pub parse : String → Option Version
  pub parse_error : String → String
  pub show_version : Version → String
  pub version_lt : Version → Version → Bool
  -- The error of a text that is no RFC 3339 date.
  pub rfc3339_error : String → Option String
  -- `path_segments_mut` of a base that has no path has no answer.
  pub download_url : String → List String → Option String

-- A regular file: its length, and the digest that hashing it gives.
pub record File : Type 0 where
  pub len : ℕ
  pub digest : String

-- `path` is the file that stands at the path.
pub record StagedArtifact : Type 0 where
  pub field_name : String
  pub path : File
  pub size : ℕ
  pub sha256 : String

-- The directories `releases`, by channel and version, and `blobs/sha256`, by digest.
pub record Storage : Type 0 where
  pub releases : List (String × List (String × ReleaseManifest))
  pub blobs : List (String × File)

abbrev pub Staged : Type 0
Staged = List (String × StagedArtifact)

-- `return Err` under a condition.
abbrev pub require : Bool → Result (Unit {0}) → Result (Unit {0})
require b failure = if b then ok tt else failure

unfoldable pub is_safe_segment : String → Bool
is_safe_segment value = not (
    is_empty value
    || contains_char 47 value
    || contains_char 92 value
    || str_eq value "."
    || str_eq value ".."
    || any_char is_control value)

unfoldable pub validate_path_segment : String → String → Result (Unit {0})
unfolding is_safe_segment
validate_path_segment value name =
    require (is_safe_segment value) (err (bad_request (name <> " is not a safe path segment")))

unfoldable pub validate_platform_key : String → Result (Unit {0})
validate_platform_key value =
    validate_path_segment value "platform"
    >> require (contains_char 45 value) (err (bad_request "platform must use the target-arch form"))

-- `u8::is_ascii_hexdigit`.
abbrev pub is_ascii_hexdigit : ℕ → Bool
is_ascii_hexdigit b = (leb 48 b && leb b 57) || (leb 65 b && leb b 70) || (leb 97 b && leb b 102)

unfoldable pub validate_sha256 : String → Result (Unit {0})
validate_sha256 value =
    require (length (as_bytes value) == 64 && all is_ascii_hexdigit (as_bytes value))
      (err (storage "manifest contains an invalid SHA-256 digest"))

-- `iter().collect::<BTreeSet<_>>()`, as its items in order.
abbrev set_of : List String → List (String × Unit {0})
set_of [] = []
set_of (k ∷ ks) = insert k tt (set_of ks)

abbrev pub file_fields : List (String × UploadPlatformMetadata) → List String
file_fields [] = []
file_fields ((key, platform) ∷ platforms) = platform.file_field ∷ file_fields platforms

-- `==` of two sets.
abbrev pub same_names : List String → List String → Bool
same_names [] [] = true
same_names (x ∷ xs) (y ∷ ys) = str_eq x y && same_names xs ys
same_names _ _ = false

-- The loops of `validate_upload_metadata`.
unfoldable pub check_platforms : List (String × UploadPlatformMetadata) → Result (Unit {0})
check_platforms [] = ok tt
check_platforms ((key, platform) ∷ platforms) =
    validate_platform_key key
    >> validate_path_segment platform.file_name "file_name"
    >> require (not (is_empty (trim platform.signature)))
        (err (bad_request ("signature for platform " <> key <> " must not be empty")))
    >> check_platforms platforms

unfoldable pub total_size : UploadPolicy → List StagedArtifact → ℕ → Result ℕ
total_size policy [] total = ok total
total_size policy (staged ∷ files) total =
    require (leb staged.size policy.max_artifact_bytes) (
      err (
        payload_too_large
          ("multipart file field '" <> staged.field_name <> "' exceeds the configured limit")))
    >> total_size policy files (saturating_add total staged.size)

module _ (lib : Libraries) where
  abbrev parsed : String → Option lib.Version → Result lib.Version
  parsed version none =
      err
        (bad_request ("invalid semantic version '" <> version <> "': " <> lib.parse_error version))
  parsed version (some v) = ok v

  unfoldable pub parse_version : String → Result lib.Version
  parse_version version = parsed version (lib.parse (trim_start_matches 118 (trim version)))

  unfoldable pub normalize_version : String → Result String
  normalize_version version = parse_version version >>= λ v. ok (lib.show_version v)

  abbrev check_date : Option String → Result (Unit {0})
  check_date none = ok tt
  check_date (some pub_date) = elim (lib.rfc3339_error pub_date) [
    | none ↦ ok tt
    | some error ↦ err (bad_request ("pub_date must be RFC 3339: " <> error))
  ]

  -- `limit` is the text of the limit on platforms.
  unfoldable pub validate_upload_metadata :
      String → ReleaseUploadMetadata → Staged → UploadPolicy → Result (Unit {0})
  validate_upload_metadata limit metadata files policy = normalize_version metadata.version >>= λ _.
      require
        (ltb 0 (length metadata.platforms) && leb (length metadata.platforms) policy.max_platforms)
        (err (bad_request ("release must contain between 1 and " <> limit <> " platforms")))
      >> check_date metadata.pub_date
      >> require (same_names (keys (set_of (file_fields metadata.platforms))) (keys files))
          (err (bad_request "multipart file fields must exactly match metadata references"))
      >> check_platforms metadata.platforms
      >> (total_size policy (values files) 0 >>= λ total.
          require (leb total policy.max_total_artifact_bytes)
            (err (payload_too_large "release artifacts exceed the configured total limit")))
