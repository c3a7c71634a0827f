-- ===== src/SelfUpdate/Releases.antt =====
-- The discovery of releases of src/self_update.rs: the pages of the release service, the signed
-- manifests, and the releases that are offered.
use update_delivery_system.Prelude.{
  ℕ, String, Bool, true, false, not, ◌&&◌, ◌||◌, Option, none, some, List, [], ◌∷◌, ◌++◌, length,
  ltb, if◌then◌else◌,
}
use update_delivery_system.Prelude.Text.{trim, trim_start_matches}
use update_delivery_system.Errors.{Result, ok, err, ◌>>=◌, ◌>>◌}
use update_delivery_system.Storage.Updates.{sort_by}
use update_delivery_system.SelfUpdate.{
  Bytes, ReleaseKind, regular, prerelease, UpdateManifest, GithubRelease, Platform, asset_url,
  verify_signature, validate_manifest,
}

pub record AvailableRelease : Type 0 where
  pub version : String
  pub build : ℕ
  pub notes : String
  pub prerelease : Bool

pub record ReleaseResponse : Type 0 where
  pub node_id : ℕ
  pub version : String
  pub build : ℕ
  pub update_supported : Bool
  pub unavailable_reason : Option String
  pub releases : List AvailableRelease

-- The release service: its pages up to the last one with a release, and the body of an asset as
-- bytes and as text. The error of a failed request is the one that `network_error` makes.
pub record Network : Type 0 where
  pub pages : List (Result (List GithubRelease))
  pub bytes : String → Result Bytes
  pub text : String → Result String

-- `prerelease == (kind == ReleaseKind::Prerelease)`.
abbrev pub in_category : ReleaseKind → Bool → Bool
in_category regular flag = not flag
in_category prerelease flag = flag

abbrev keeps : ReleaseKind → GithubRelease → Bool
keeps kind release = not release.draft && in_category kind release.prerelease

abbrev pub of_kind : ReleaseKind → List GithubRelease → List GithubRelease
of_kind kind [] = []
of_kind kind (release ∷ releases) =
    let rest = of_kind kind releases in if keeps kind release then release ∷ rest else rest

-- `for page in 1..`: the page after the last is empty, and ends the loop.
unfoldable pub github_pages :
    ReleaseKind
    → List (Result (List GithubRelease))
    → List GithubRelease
    → Result (List GithubRelease)
github_pages kind [] all = ok all
github_pages kind (err e ∷ pages) all = err e
github_pages kind (ok page_items ∷ pages) all =
    let rest = github_pages kind pages (all ++ of_kind kind page_items) in
    if ltb (length page_items) 100 then ok (all ++ of_kind kind page_items) else rest

unfoldable pub github_releases : Network → ReleaseKind → Result (List GithubRelease)
unfolding github_pages
github_releases net kind = github_pages kind net.pages []

abbrev pub unavailable_reason : String
unavailable_reason =
    "manual UDS updates require a wizard-installed single node at /usr/local/bin/uds managed by systemd; fleet updates are planned but not available"

module _ (p : Platform) (net : Network) where
  unfoldable pub fetch_manifest : GithubRelease → Result (UpdateManifest × Bytes × String)
  fetch_manifest release = asset_url release "latest.json" >>= λ manifest_url.
      asset_url release "latest.json.sig" >>= λ signature_url.
      net.bytes manifest_url >>= λ manifest. net.text signature_url >>= λ signature_text.
      verify_signature p manifest (trim signature_text)
      >> (p.parse_manifest manifest >>= λ parsed. ok (parsed, manifest, signature_text))

  -- The fields of a release of which the manifest is verified and valid.
  unfoldable pub available :
      GithubRelease → p.Version → Result (UpdateManifest × Bytes × String) → List AvailableRelease
  available release version (err e) = []
  available release version (ok (manifest, bytes, signature)) =
      elim (validate_manifest p manifest release.tag_name (p.show_version version)) [
        | err e ↦ []
        | ok artifact ↦
            record {
              version = manifest.version;
              build = manifest.build;
              notes = manifest.notes;
              prerelease = release.prerelease;
            }
            ∷ []
      ]

  unfoldable pub newer_release :
      GithubRelease → Result p.Version → Result p.Version → Result (List AvailableRelease)
  newer_release release (err e) running = ok []
  newer_release release (ok version) (err e) = err e
  newer_release release (ok version) (ok running) = ok (
      if p.version_lt running version
      then available release version (fetch_manifest release)
      else [])

  -- The body of the loop over a page: what the release adds.
  unfoldable pub offered : ReleaseKind → GithubRelease → Result (List AvailableRelease)
  offered kind release =
      if release.draft || not (in_category kind release.prerelease)
      then ok []
      else newer_release release (p.parse_semver (trim_start_matches b'v' release.tag_name))
          (p.parse_semver p.running_version)

  unfoldable pub offered_all :
      ReleaseKind → List GithubRelease → List AvailableRelease → Result (List AvailableRelease)
  offered_all kind [] found = ok found
  offered_all kind (release ∷ releases) found =
      offered kind release >>= λ more. offered_all kind releases (found ++ more)

  unfoldable pub release_pages :
      ReleaseKind
      → List (Result (List GithubRelease))
      → List AvailableRelease
      → Result (List AvailableRelease)
  release_pages kind [] found = ok found
  release_pages kind (err e ∷ pages) found = err e
  release_pages kind (ok github ∷ pages) found = offered_all kind github found >>= λ found'.
      let rest = release_pages kind pages found' in
      if ltb (length github) 100 then ok found' else rest

  -- `Version::parse(..).ok().cmp(..)`, in descending order.
  abbrev version_after : Option p.Version → Option p.Version → Bool
  version_after (some a) (some b) = p.version_lt b a
  version_after (some a) none = true
  version_after none b = false

  abbrev ok_of : {A : Type 0} → Result A → Option A
  ok_of (ok a) = some a
  ok_of (err e) = none

  abbrev pub before : AvailableRelease → AvailableRelease → Bool
  before a b = version_after (ok_of (p.parse_semver a.version)) (ok_of (p.parse_semver b.version))

  unfoldable pub unavailable_response : ℕ → ReleaseResponse
  unavailable_response node_id = record {
    node_id = node_id;
    version = p.running_version;
    build = p.running_build;
    update_supported = false;
    unavailable_reason = some unavailable_reason;
    releases = [];
  }

  abbrev response : ℕ → List AvailableRelease → ReleaseResponse
  response node_id found = record {
    node_id = node_id;
    version = p.running_version;
    build = p.running_build;
    update_supported = true;
    unavailable_reason = none;
    releases = sort_by before found;
  }

  unfoldable pub releases : Bool → ℕ → ReleaseKind → Result ReleaseResponse
  releases supported node_id kind =
      if not supported
      then ok (unavailable_response node_id)
      else (release_pages kind net.pages [] >>= λ found. ok (response node_id found))
