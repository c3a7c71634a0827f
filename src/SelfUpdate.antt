-- ===== src/SelfUpdate.antt =====
-- src/self_update.rs: the data of the update of the server by itself, and the checks that a release
-- has to pass before it is staged or installed. A byte is a number.
pub mod Archive
pub mod Extraction
pub mod Releases
pub mod Manager
pub mod Staging
pub mod Helper
pub mod Replacement
pub mod Pending
pub mod Applying
pub mod Steps
pub mod Records
pub mod Tasks
pub mod Evolution
pub mod Settling
pub mod Activity
pub mod Requests
pub mod Abandoned
use update_delivery_system.Prelude.{
  ℕ, ◌≡◌, refl, String, Bool, true, false, not, ◌&&◌, ◌||◌, ◌==◌, Option, none, some, List, [], ◌∷◌,
  length, any, str_eq, if◌then◌else◌,
}
use update_delivery_system.Prelude.Text.{
  ◌<>◌, is_empty, trim, take_chars, first_line, to_ascii_lowercase, split, starts_with,
}
use update_delivery_system.Prelude.BTreeMap.{get}
use update_delivery_system.Prelude.BTreeMap.Keys.{text_ord}
use update_delivery_system.Errors.{UdsError, Result, ok, err, ◌>>=◌, ◌>>◌, bad_request}
use update_delivery_system.Storage.{require}

abbrev pub Bytes : Type 0
Bytes = List ℕ

pub data ReleaseKind : Type 0 where
  regular prerelease : ReleaseKind

pub record StartUpdateRequest : Type 0 where
  pub operation_id : ℕ
  pub node_id : ℕ
  pub version : String
  pub allow_prerelease : Bool

pub data OperationStatus : Type 0 where
  queued downloading staged applying boot_confirmed succeeded rolled_back failed : OperationStatus

pub record UpdateOperation : Type 0 where
  pub request : StartUpdateRequest
  pub status : OperationStatus
  pub created_at : String
  pub updated_at : String
  pub error : Option String

pub record UpdateArtifact : Type 0 where
  pub url : String
  pub sha256 : String
  pub size : ℕ
  pub archive_format : String
  pub executable_path : String
  pub self_update_supported : Bool

pub record UpdateManifest : Type 0 where
  pub schema_version : ℕ
  pub version : String
  pub build : ℕ
  pub tag : String
  pub notes : String
  pub artifacts : List (String × UpdateArtifact)

pub record GithubAsset : Type 0 where
  pub name : String
  pub browser_download_url : String

pub record GithubRelease : Type 0 where
  pub tag_name : String
  pub draft : Bool
  pub prerelease : Bool
  pub assets : List GithubAsset

pub data EntryType : Type 0 where
  regular_file symlink hard_link other : EntryType

-- An entry of an archive; `path` is `none` where its path cannot be read.
pub record Entry : Type 0 where
  pub path : Option String
  pub entry_type : EntryType
  pub content : Result Bytes

-- The build, and what `semver`, `base64`, `ed25519_dalek`, `sha2`, `serde_json`, `flate2` and `tar`
-- supply. An archive without entries that can be listed has no answer, nor has a corrupt entry.
pub record Platform : Type 1 where
  pub running_version : String
  pub running_build : ℕ
  pub arch : String
  pub Version : Type 0
  pub parse_semver : String → Result Version
  pub show_version : Version → String
  pub version_lt : Version → Version → Bool
  pub Key : Type 0
  pub Signature : Type 0
  pub update_public_key : Option Key
  pub decode_base64 : String → Option Bytes
  pub signature_from_slice : Bytes → Option Signature
  pub verify : Key → Bytes → Signature → Bool
  pub sha256_hex : Bytes → String
  pub parse_manifest : Bytes → Result UpdateManifest
  pub list_entries : Bytes → Option (List (Option Entry))

unfoldable pub terminal : OperationStatus → Bool
terminal succeeded = true
terminal rolled_back = true
terminal failed = true
terminal _ = false

unfoldable pub sanitize_error : String → String
sanitize_error message =
    take_chars 300 (if is_empty message then "update failed" else first_line message)

abbrev pub find_asset : String → List GithubAsset → Option GithubAsset
find_asset name [] = none
find_asset name (asset ∷ assets) =
    if str_eq asset.name name then some asset else find_asset name assets

abbrev url_of : String → Option GithubAsset → Result String
url_of name none = err (bad_request ("release is missing " <> name))
url_of name (some asset) = ok asset.browser_download_url

unfoldable pub asset_url : GithubRelease → String → Result String
asset_url release name = url_of name (find_asset name release.assets)

module _ (p : Platform) where
  abbrev pub decoded : Option Bytes → Result Bytes
  decoded none = err (bad_request "manifest signature is not valid base64")
  decoded (some bytes) = ok bytes

  abbrev pub signature : Option p.Signature → Result p.Signature
  signature none = err (bad_request "manifest signature has an invalid length")
  signature (some s) = ok s

  unfoldable pub verify_signature_with_key : p.Key → Bytes → String → Result (Unit {0})
  verify_signature_with_key key manifest encoded = decoded (p.decode_base64 encoded) >>= λ bytes.
      signature (p.signature_from_slice bytes) >>= λ s.
      require (p.verify key manifest s) (err (bad_request "manifest signature verification failed"))

  abbrev pub embedded : Option p.Key → Result p.Key
  embedded none = err (bad_request "embedded update key is invalid")
  embedded (some key) = ok key

  unfoldable pub verify_signature : Bytes → String → Result (Unit {0})
  verify_signature manifest encoded =
      embedded p.update_public_key >>= λ key. verify_signature_with_key key manifest encoded

  unfoldable pub validate_archive_bytes : Bytes → UpdateArtifact → Result (Unit {0})
  validate_archive_bytes bytes artifact =
      require (length bytes == artifact.size)
        (err (bad_request "archive size does not match the signed manifest"))
      >> require (str_eq (p.sha256_hex bytes) (to_ascii_lowercase artifact.sha256))
          (err (bad_request "archive digest does not match the signed manifest"))

  abbrev pub selected_artifact : Option UpdateArtifact → Result UpdateArtifact
  selected_artifact none =
      err (bad_request "signed manifest has no artifact for this Linux architecture")
  selected_artifact (some artifact) =
      require
        (not (
          not artifact.self_update_supported
          || not (str_eq artifact.archive_format "tar.gz")
          || artifact.size == 0))
        (err (bad_request "signed artifact is not eligible for this update workflow"))
      >> ok artifact

  unfoldable pub validate_manifest : UpdateManifest → String → String → Result UpdateArtifact
  validate_manifest manifest tag version =
      require
        (not (
          not (manifest.schema_version == 1)
          || not (str_eq manifest.version version)
          || not (str_eq manifest.tag tag)
          || not (str_eq tag ("v" <> version))))
        (err (bad_request "signed manifest version or tag is inconsistent"))
      >> (p.parse_semver version >>= λ parsed. p.parse_semver p.running_version >>= λ running.
          require (p.version_lt running parsed)
            (err (bad_request "selected version is not newer than the running version"))
          >> selected_artifact (get ("linux-" <> p.arch) manifest.artifacts))
