-- ===== src/Storage/Newest.antt =====
-- The answer of `update_for` of src/storage.rs.
use mathlib.Core.Path.{subst⁻¹}
use update_delivery_system.Prelude.{
  ◌≡◌, refl, String, true, false, Option, none, some, List, [], ◌∷◌, All, Bool-cases, arith,
}
use update_delivery_system.Prelude.Text.{◌<>◌}
use update_delivery_system.Prelude.BTreeMap.{get}
use update_delivery_system.Prelude.BTreeMap.Keys.{text_ord}
use update_delivery_system.Errors.{Result, ok, err, ◌>>◌}
use update_delivery_system.Errors.Outcomes.{OnOk, OnOk-bind, OnOk-map, OnOk-at}
use update_delivery_system.Models.{PlatformArtifact, ReleaseManifest, TauriUpdateResponse}
use update_delivery_system.Storage.{Libraries, Storage, parse_version}
use update_delivery_system.Storage.Repository.{list_releases}
use update_delivery_system.Storage.Updates.{
  sort_by, Candidate, version_before, respond, offer, offer_artifact, offer_newest, update_for,
}
use update_delivery_system.Storage.Sorting.{
  IsOrder, IsMax-sort_by, All-sort_by, All-unsort_by, All-last,
}
use update_delivery_system.Storage.Offers.{
  AtMost, IsCandidate, AreCandidates, candidates-AreCandidates,
}

module _ (lib : Libraries) (platform_key : String) where
  -- What an answer says of the releases of the channel.
  abbrev pub Answer : lib.Version → List ReleaseManifest → Option TauriUpdateResponse → Type 0
  Answer current releases none = All (AtMost lib platform_key current) releases
  Answer current releases (some response) =
      (v : lib.Version) × (m : ReleaseManifest) × (artifact : PlatformArtifact) × IsCandidate lib
        platform_key current releases (v, m)
      × (get platform_key m.platforms ≡ some artifact)
      × (response.version ≡ m.version)
      × (response.signature ≡ artifact.signature)
      × All (AtMost lib platform_key v) releases

module _ (lib : Libraries) (order : IsOrder lib) (base channel platform_key : String) where
  offered :
      (current : lib.Version) (releases : List ReleaseManifest) (c : Candidate lib)
      (sorted : List (Candidate lib))
      → IsCandidate lib platform_key current releases c
      → All (AtMost lib platform_key c.0) releases
      → OnOk
          (Answer lib platform_key current releases)
          (offer lib base channel platform_key sorted (some c))
  unfolding offer offer_artifact
  offered current releases (v, m) sorted is_candidate at_most =
      artifact (get platform_key m.platforms) refl
    where
      url : PlatformArtifact → Option String
      url a =
          lib.download_url base
            ("api" ∷ "v1" ∷ "downloads" ∷ channel ∷ m.version ∷ platform_key ∷ a.file_name ∷ [])

      answer :
          (a : PlatformArtifact)
          → get platform_key m.platforms ≡ some a
          → (notes : String) (u : Option String)
          → OnOk (Answer lib platform_key current releases) (respond lib m a notes u)
      answer a e notes none = tt
      answer a e notes (some u) = (v, m, a, is_candidate, e, refl, refl, at_most)

      artifact :
          (o : Option PlatformArtifact)
          → get platform_key m.platforms ≡ o
          → OnOk
              (Answer lib platform_key current releases)
              (offer_artifact lib base channel platform_key v m sorted o)
      artifact none e = tt
      artifact (some a) e = answer a e _ (url a)

  above :
      (current v w : lib.Version)
      → lib.version_lt current v ≡ true
      → lib.version_lt current w ≡ false
      → lib.version_lt v w ≡ false
  above current v w h k = ground (arith, order.trans current v w, Bool-cases (lib.version_lt v w))

  offer_newest-Answer :
      (current : lib.Version) (releases : List ReleaseManifest) (found : List (Candidate lib))
      → AreCandidates lib platform_key current releases found
      → OnOk
          (Answer lib platform_key current releases)
          (offer_newest lib base channel platform_key found)
  unfolding offer
  offer_newest-Answer current releases [] (c, covers) = covers current (λ w e. e) tt
  offer_newest-Answer current releases (x ∷ xs) (good, covers) =
      let (c, m) = IsMax-sort_by lib order x xs in
      let is_candidate =
        All-last (version_before lib) (IsCandidate lib platform_key current releases) sorted c
          (All-sort_by (version_before lib) (IsCandidate lib platform_key current releases) (x ∷ xs)
            good)
          m.0 in
      subst⁻¹
        (λ o.
          OnOk (Answer lib platform_key current releases)
            (offer lib base channel platform_key sorted o))
        m.0
        (offered current releases c sorted is_candidate (
          covers c.0 (λ w e. above current c.0 w is_candidate.3 e)
            (All-unsort_by (version_before lib) (λ y. lib.version_lt c.0 y.0 ≡ false) (x ∷ xs)
              m.1)))
    where
      sorted : List (Candidate lib)
      sorted = sort_by (version_before lib) (x ∷ xs)

then-ok : {A : Type 0} (m : Result (Unit {0})) (n : Result A) (a : A) → (m >> n) ≡ ok a → n ≡ ok a
then-ok (ok u) n a e = e
then-ok (err failure) n a e = cc

-- The answer with what it was made from.
abbrev Checked :
    (lib : Libraries) → String → String → String → Storage → Option TauriUpdateResponse → Type 0
Checked lib channel key current_version s answer =
    (current : lib.Version) × (releases : List ReleaseManifest) × (parse_version lib current_version
      ≡ ok current)
    × (list_releases lib channel s ≡ ok releases)
    × Answer lib key current releases answer

update_for-Checked :
    (lib : Libraries)
    → IsOrder lib
    → (base channel target arch current_version : String) (s : Storage)
    → OnOk
        (Checked lib channel (target <> "-" <> arch) current_version s)
        (update_for lib base channel target arch current_version s)
unfolding update_for
update_for-Checked lib order base channel target arch current_version s =
    OnOk-bind P _ _ (λ current e. OnOk-bind P _ _ (λ releases l. OnOk-bind P _ _ (λ found c.
      OnOk-map (Answer lib key current releases) P _
        (λ a h. (current, releases, then-ok _ _ current e, l, h))
        (offer_newest-Answer lib order base channel key current releases found (
          OnOk-at (AreCandidates lib key current releases) _ found
            (candidates-AreCandidates lib key current releases) c)))))
  where
    key : String
    key = target <> "-" <> arch

    P : Option TauriUpdateResponse → Type 0
    P = Checked lib channel (target <> "-" <> arch) current_version s

-- When versions are totally ordered, an update check that is answered names the client's version and
-- has read the channel's releases. If it offers nothing, each release is withdrawn, has no artifact
-- for the platform, or is not newer than the client. If it offers a release, that release is one of
-- the channel, not withdrawn, newer than the client, and the answer has its version and the signature
-- of its artifact for the platform; and each release of the channel is withdrawn, has no artifact for
-- the platform, or is not newer than the offered one.
pub update_for_offers_newest :
    (lib : Libraries) (order : IsOrder lib) (base channel target arch current_version : String)
    (s : Storage) (answer : Option TauriUpdateResponse)
    → update_for lib base channel target arch current_version s ≡ ok answer
    → (current : lib.Version) × (releases : List ReleaseManifest) × (parse_version lib
          current_version
        ≡ ok current)
      × (list_releases lib channel s ≡ ok releases)
      × Answer lib (target <> "-" <> arch) current releases answer
update_for_offers_newest lib order base channel target arch current_version s answer e =
    OnOk-at (Checked lib channel (target <> "-" <> arch) current_version s) _ answer
      (update_for-Checked lib order base channel target arch current_version s) e
