-- ===== src/Storage/Updates.antt =====
-- `update_for` of src/storage.rs: the choice of the release that a client is offered.
use update_delivery_system.Prelude.{
  String, Bool, true, false, not, ◌||◌, Option, none, some, is_some, List, [], ◌∷◌, if◌then◌else◌,
}
use update_delivery_system.Prelude.Text.{◌<>◌, is_empty, trim}
use update_delivery_system.Prelude.BTreeMap.{get, keys}
use update_delivery_system.Prelude.BTreeMap.Keys.{text_ord}
use update_delivery_system.Errors.{Result, ok, err, ◌>>=◌, ◌>>◌, config, storage}
use update_delivery_system.Models.{
  PlatformArtifact, ReleaseManifest, ReleaseListEntry, TauriUpdateResponse,
}
use update_delivery_system.Storage.{Libraries, Storage, validate_path_segment, parse_version}
use update_delivery_system.Storage.Repository.{list_releases}

-- `slice::last`.
abbrev pub last : {A : Type 0} → List A → Option A
last [] = none
last (x ∷ []) = some x
last (x ∷ y ∷ ys) = last (y ∷ ys)

-- The stable `sort_by`, for an order given by its strict part.
module _ {A : Type 0} (lt : A → A → Bool) where
  abbrev pub sort_insert : A → List A → List A
  sort_insert x [] = x ∷ []
  sort_insert x (y ∷ ys) = let rest = sort_insert x ys in if lt y x then y ∷ rest else x ∷ y ∷ ys

  abbrev pub sort_by : List A → List A
  sort_by [] = []
  sort_by (x ∷ xs) = sort_insert x (sort_by xs)

module _ (lib : Libraries) where
  abbrev pub Candidate : Type 0
  Candidate = lib.Version × ReleaseManifest

  abbrev pub version_before : Candidate → Candidate → Bool
  version_before a b = lib.version_lt a.0 b.0

  -- Whether the loop of `update_for` passes a manifest over.
  abbrev pub is_skipped : String → ReleaseManifest → Bool
  is_skipped platform_key manifest =
      manifest.withdrawn || not (is_some (get platform_key manifest.platforms))

  abbrev pub newer_candidates :
      lib.Version → lib.Version → ReleaseManifest → List Candidate → List Candidate
  newer_candidates current parsed manifest rest =
      if lib.version_lt current parsed then (parsed, manifest) ∷ rest else rest

  unfoldable pub candidates : String → lib.Version → List ReleaseManifest → Result (List Candidate)
  candidates platform_key current [] = ok []
  candidates platform_key current (manifest ∷ releases) =
      let rest = candidates platform_key current releases in
      if is_skipped platform_key manifest
      then rest
      else (parse_version lib manifest.version >>= λ parsed.
          rest >>= λ found. ok (newer_candidates current parsed manifest found))

  -- The loop that joins the notes of the candidates up to the offered version.
  unfoldable pub join_notes : lib.Version → List Candidate → String → String
  join_notes offered [] notes = notes
  join_notes offered ((version, manifest) ∷ rest) notes =
      let skipped = join_notes offered rest notes in
      let joined = join_notes offered rest (
        notes
        <> (if is_empty notes then "" else "\n\n")
        <> "## "
        <> manifest.version
        <> "\n\n"
        <> trim manifest.notes) in
      if lib.version_lt offered version then skipped else joined

  abbrev pub respond :
      ReleaseManifest
      → PlatformArtifact
      → String
      → Option String
      → Result (Option TauriUpdateResponse)
  respond manifest artifact notes none =
      err (config "public_base_url cannot be used as a hierarchical URL")
  respond manifest artifact notes (some url) = ok (
      some (record {
        version = manifest.version;
        url = url;
        signature = artifact.signature;
        pub_date = manifest.pub_date;
        notes = notes;
      }))

  module _ (public_base_url channel platform_key : String) where
    unfoldable pub offer_artifact :
        lib.Version
        → ReleaseManifest
        → List Candidate
        → Option PlatformArtifact
        → Result (Option TauriUpdateResponse)
    offer_artifact version manifest sorted none =
        err (storage "selected release is missing its platform artifact")
    offer_artifact version manifest sorted (some artifact) =
        respond manifest artifact (join_notes version sorted "") (
          lib.download_url public_base_url (
            "api" ∷ "v1" ∷ "downloads" ∷ channel ∷ manifest.version ∷ platform_key
            ∷ artifact.file_name ∷ []))

    unfoldable pub offer : List Candidate → Option Candidate → Result (Option TauriUpdateResponse)
    offer sorted none = ok none
    offer sorted (some (version, manifest)) =
        offer_artifact version manifest sorted (get platform_key manifest.platforms)

  abbrev pub offer_newest :
      String → String → String → List Candidate → Result (Option TauriUpdateResponse)
  offer_newest public_base_url channel platform_key found =
      let sorted = sort_by version_before found in
      offer public_base_url channel platform_key sorted (last sorted)

  unfoldable pub update_for :
      String → String → String → String → String → Storage → Result (Option TauriUpdateResponse)
  update_for public_base_url channel target arch current_version s =
      validate_path_segment channel "channel"
      >> validate_path_segment target "target"
      >> validate_path_segment arch "arch"
      >> parse_version lib current_version
      >>= λ current. list_releases lib channel s >>= λ releases.
          candidates (target <> "-" <> arch) current releases >>= λ found.
          offer_newest public_base_url channel (target <> "-" <> arch) found

  -- The order of `release_list` by `Reverse(parse_version(…).ok())`, whose `None` comes last.
  abbrev entry_before : Result lib.Version → Result lib.Version → Bool
  entry_before (ok a) (ok b) = lib.version_lt b a
  entry_before (ok a) (err _) = true
  entry_before (err _) _ = false

  abbrev entries : List ReleaseManifest → List ReleaseListEntry
  entries [] = []
  entries (m ∷ manifests) =
      record {
        version = m.version;
        pub_date = m.pub_date;
        withdrawn = m.withdrawn;
        platforms = keys m.platforms;
        updated_at = m.updated_at;
      }
      ∷ entries manifests

  unfoldable pub release_list : String → Storage → Result (List ReleaseListEntry)
  release_list channel s = list_releases lib channel s >>= λ manifests. ok (
      sort_by (λ a b. entry_before (parse_version lib a.version) (parse_version lib b.version))
        (entries manifests))
