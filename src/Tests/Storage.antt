-- ===== src/Tests/Storage.antt =====
-- src/storage.rs at concrete inputs.
use update_delivery_system.Prelude.{
  ◌≡◌, refl, String, Bool, true, false, not, ◌&&◌, Option, none, some, List, [], ◌∷◌, str_eq,
  if◌then◌else◌,
}
use update_delivery_system.Prelude.Text.{
  ◌<>◌, trim, trim_start_matches, trim_start, trim_end, is_whitespace, is_empty, contains_char,
  any_char, is_control, as_bytes, utf8_char,
}
use update_delivery_system.Prelude.Text.{strip_prefix}
use update_delivery_system.Prelude.BTreeMap.{get}
use update_delivery_system.Errors.{ok, io}
use update_delivery_system.Models.{
  ReleaseUploadMetadata, ReleaseManifest, PlatformArtifact, TauriUpdateResponse, UploadPolicy,
}
use update_delivery_system.Storage.{
  Libraries, Storage, Staged, parse_version, normalize_version, validate_path_segment,
  is_safe_segment, validate_sha256,
}
use update_delivery_system.Storage.Repository.{list_releases, load_all, load_manifest}
use update_delivery_system.Storage.Repository.{referenced, prune_unreferenced_blobs}
use update_delivery_system.Storage.Pruning.{prune_keeps_blobs}
use update_delivery_system.Storage.Updates.{
  update_for, candidates, offer, offer_artifact, join_notes,
}
use update_delivery_system.Storage.Sorting.{IsOrder}
use update_delivery_system.Storage.Newest.{Answer, update_for_offers_newest}
use update_delivery_system.Storage.Mutations.{Mutation, put, patch, withdraw, copy, mutate_all}
use update_delivery_system.Storage.Blobs.{IsBlob, IsComplete}
use update_delivery_system.Storage.Completeness.{mutations-IsComplete}
use update_delivery_system.Prelude.BTreeMap.Keys.{text_ord}
use update_delivery_system.Storage.Kept.{ShowParses, release_at, IsKept}
use update_delivery_system.Storage.Permanence.{mutations_keep_releases}

abbrev pub parse_two : String → Option Bool
parse_two text =
    if str_eq text "1.0.0" then some false else if str_eq text "2.0.0" then some true else none

abbrev pub show_two : Bool → String
show_two false = "1.0.0"
show_two true = "2.0.0"

-- The versions 1.0.0 and 2.0.0.
abbrev pub libraries : Libraries
libraries = record {
  Version = Bool;
  parse = parse_two;
  parse_error = λ text. "unexpected text";
  show_version = show_two;
  version_lt = λ a b. not a && b;
  rfc3339_error = λ text. none;
  download_url = λ base segments. some base;
}

libraries-IsOrder : IsOrder libraries
libraries-IsOrder = record { irrefl = irrefl; trans = trans; total = total }
  where
    irrefl : (a : Bool) → (not a && a) ≡ false
    irrefl true = refl
    irrefl false = refl

    trans : (a b c : Bool) → (not a && b) ≡ true → (not b && c) ≡ true → (not a && c) ≡ true
    trans true b c h k = cc
    trans false true false h k = cc
    trans false false false h k = cc
    trans false b true h k = refl

    total : (a b : Bool) → (not a && b) ≡ false → (not b && a) ≡ false → a ≡ b
    total true true h k = refl
    total false false h k = refl
    total true false h k = cc
    total false true h k = cc

pub libraries-ShowParses : ShowParses libraries
unfolding trim trim_start trim_end is_whitespace trim_start_matches
libraries-ShowParses = record { parses = parses }
  where
    parses : (v : Bool) → parse_two (trim_start_matches 118 (trim (show_two v))) ≡ some v
    parses true = refl
    parses false = refl

abbrev pub artifact : PlatformArtifact
artifact = record {
  file_name = "app.tar.gz";
  signature = "signed";
  size = 7;
  sha256 = "0000000000000000000000000000000000000000000000000000000000000000";
}

abbrev pub release_1 : ReleaseManifest
release_1 = record {
  version = "1.0.0";
  pub_date = none;
  notes = "First";
  withdrawn = false;
  platforms = ("linux-x64", artifact) ∷ [];
  updated_at = 1;
}

abbrev pub release_2 : ReleaseManifest
release_2 = record release_1 { version = "2.0.0" }

abbrev pub stored : Storage
stored = record {
  releases = ("stable", ("1.0.0", release_1) ∷ ("2.0.0", release_2) ∷ []) ∷ [];
  blobs = (artifact.sha256, record { len = 7; digest = artifact.sha256 }) ∷ [];
}

abbrev pub upload : ReleaseUploadMetadata
upload = record {
  version = "v2.0.0";
  pub_date = none;
  notes = "Second";
  platforms =
      (
        "linux-x64",
        record { file_field = "bundle"; file_name = "app.tar.gz"; signature = "signed" },
      )
      ∷ [];
}

abbrev pub bundle : Staged
bundle =
    (
      "bundle",
      record {
        field_name = "bundle";
        path = record {
          len = 9;
          digest = "1111111111111111111111111111111111111111111111111111111111111111";
        };
        size = 9;
        sha256 = "1111111111111111111111111111111111111111111111111111111111111111";
      },
    )
    ∷ []

abbrev pub policy : UploadPolicy
policy = record {
  max_artifact_bytes = 100;
  max_total_artifact_bytes = 100;
  max_metadata_bytes = 100;
  max_platforms = 2;
}

abbrev day : List Mutation
day =
    put none 2 "2" "beta" upload bundle policy
    ∷ withdraw none 3 "stable" "v1.0.0"
    ∷ patch (some (io "disk full")) 4 "stable" "2.0.0" "New"
    ∷ copy none 5 "beta" "nightly" "2.0.0"
    ∷ []

pub stored-IsComplete : IsComplete stored
unfolding get
stored-IsComplete = (((stored_blob, tt), ((stored_blob, tt), tt)), tt)
  where
    stored_blob : IsBlob stored.blobs artifact
    stored_blob = (record { len = 7; digest = artifact.sha256 }, refl, refl)

first_stored : release_at "stable" "1.0.0" stored ≡ some release_1
unfolding get
first_stored = refl

mutations-IsComplete_example : IsComplete (mutate_all libraries day stored)
mutations-IsComplete_example =
    mutations-IsComplete libraries day stored ((refl, tt), (tt, (tt, (tt, tt)))) stored-IsComplete

mutations_keep_releases_example :
    IsKept release_1 (release_at "stable" "1.0.0" (mutate_all libraries day stored))
mutations_keep_releases_example =
    mutations_keep_releases libraries libraries-ShowParses day stored "stable" "1.0.0" release_1
      first_stored

abbrev offer_2 : Option TauriUpdateResponse
offer_2 = some (record {
  version = "2.0.0";
  url = "https://uds";
  signature = "signed";
  pub_date = none;
  notes = "## 2.0.0\n\nFirst";
})

answered : update_for libraries "https://uds" "stable" "linux" "x64" "v1.0.0" stored ≡ ok offer_2
unfolding update_for validate_path_segment is_safe_segment is_empty contains_char any_char
    is_control parse_version trim trim_start trim_end is_whitespace trim_start_matches list_releases
    load_all load_manifest normalize_version candidates get offer offer_artifact join_notes
answered = refl

update_for_offers_newest_example :
    (current : Bool) × (releases : List ReleaseManifest) × (parse_version libraries "v1.0.0"
      ≡ ok current)
    × (list_releases libraries "stable" stored ≡ ok releases)
    × Answer libraries ("linux" <> "-" <> "x64") current releases offer_2
update_for_offers_newest_example =
    update_for_offers_newest libraries libraries-IsOrder "https://uds" "stable" "linux" "x64"
      "v1.0.0" stored offer_2 answered

digest_checked : validate_sha256 artifact.sha256 ≡ ok tt
unfolding validate_sha256 as_bytes utf8_char
digest_checked = refl

version_normalized : normalize_version libraries "1.0.0" ≡ ok "1.0.0"
unfolding normalize_version parse_version trim trim_start trim_end is_whitespace trim_start_matches
version_normalized = refl

platform_stored : get "linux-x64" release_1.platforms ≡ some artifact
unfolding get
platform_stored = refl

abbrev crowded : Storage
crowded = record stored {
  blobs =
      (artifact.sha256, record { len = 7; digest = artifact.sha256 })
      ∷ (
        "2222222222222222222222222222222222222222222222222222222222222222",
        record { len = 5; digest = "2" },
      )
      ∷ [];
}

crowded-IsBlob : IsBlob crowded.blobs artifact
unfolding get
crowded-IsBlob = (record { len = 7; digest = artifact.sha256 }, refl, refl)

crowded_release : release_at "stable" "1.0.0" crowded ≡ some release_1
unfolding get
crowded_release = refl

crowded_pruned : prune_unreferenced_blobs libraries crowded ≡ ok stored
unfolding prune_unreferenced_blobs referenced list_releases load_all load_manifest normalize_version
    parse_version trim trim_start trim_end is_whitespace trim_start_matches get
    validate_path_segment is_safe_segment is_empty contains_char any_char is_control strip_prefix
crowded_pruned = refl

prune_keeps_blobs_example : IsBlob stored.blobs artifact × (stored.releases ≡ crowded.releases)
prune_keeps_blobs_example =
    prune_keeps_blobs libraries crowded stored "stable" "1.0.0" "linux-x64" release_1 artifact
      version_normalized crowded_release platform_stored crowded-IsBlob digest_checked
      crowded_pruned
