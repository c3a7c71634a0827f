-- ===== src/Storage/Pruning.antt =====
-- `prune_unreferenced_blobs` of src/storage.rs keeps what releases need.
use mathlib.Core.Option.{some-injective}
use Prim.Native.Char.{code}
use update_delivery_system.Prelude.{
  ◌≡◌, refl, sym, ap, ◌∙◌, String, Bool, true, false, ◌||◌, Option, none, some, unwrap_or, List, [],
  ◌∷◌, ◌++◌, map, arith, str_eq, eq_iff, if◌then◌else◌, ◌==◌, ==_iff, ◌&&◌, length, all,
}
use update_delivery_system.Prelude.BTreeMap.{get, keys, values}
use update_delivery_system.Prelude.BTreeMap.Keys.{text_ord}
use update_delivery_system.Prelude.Text.{starts_with, strip_prefix, as_bytes, utf8_char}
use update_delivery_system.Errors.{Result, ok, err, ◌>>◌, storage}
use update_delivery_system.Models.{PlatformArtifact, ReleaseManifest}
use update_delivery_system.Storage.{
  Libraries, Storage, validate_path_segment, normalize_version, validate_sha256, is_ascii_hexdigit,
}
use update_delivery_system.Storage.Repository.{
  Blobs, Platforms, channel_dir, load_manifest, load_all, list_releases, digests, listed,
  referenced, keep_listed, prune_unreferenced_blobs,
}
use update_delivery_system.Errors.Outcomes.{OnOk, OnOk-bind, OnOk-at, true_of_ok}
use update_delivery_system.Storage.Blobs.{IsBlob}
use update_delivery_system.Storage.Kept.{release_at}
use update_delivery_system.Storage.Permanence.{ok-injective}

get-listed :
    {V : Type 0} (k : String) (v : V) (m : List (String × V))
    → get k m ≡ some v
    → listed k (keys m) ≡ true
unfolding get
get-listed k v [] e = cc
get-listed k v ((j, w) ∷ m) e = ground (arith, get-listed k v m)

listed-append :
    (k : String) (xs ys : List String) → listed k (xs ++ ys) ≡ listed k xs || listed k ys
listed-append k [] ys = refl
listed-append k (x ∷ xs) ys = ground (arith, listed-append k xs ys)

get-keep_listed :
    (k : String) (ds : List String) (blobs : Blobs)
    → starts_with ".tmp-" k ≡ false
    → listed k ds ≡ true
    → get k (keep_listed ds blobs) ≡ get k blobs
unfolding get
get-keep_listed k ds [] t e = refl
get-keep_listed k ds ((j, f) ∷ blobs) t e =
    ground (
      arith,
      get-keep_listed k ds blobs,
      eq_iff j k,
      ap (starts_with ".tmp-"),
      ap (λ x. listed x ds),
    )

-- A digest does not begin with a full stop.
not_temporary : (k : String) → validate_sha256 k ≡ ok tt → starts_with ".tmp-" k ≡ false
unfolding validate_sha256 strip_prefix as_bytes utf8_char
not_temporary String.[] v = refl
not_temporary (String.◌∷◌ c k) v =
    go (46 == code c) refl (true_of_ok _ (storage "manifest contains an invalid SHA-256 digest") v)
  where
    go :
        (t : Bool)
        → (46 == code c) ≡ t
        → (length (utf8_char (code c) ++ as_bytes k) == 64
            && all is_ascii_hexdigit (utf8_char (code c) ++ as_bytes k))
          ≡ true
        → elim (if t then strip_prefix "tmp-" k else none) [ none ↦ false | some x ↦ true ] ≡ false
    go false e h = refl
    go true e h =
        let q : code c ≡ 46 = ground (arith, ==_iff 46 (code c)) in
        absurd (let g = rw q at h in ground (arith, g))

abbrev artifact_digests : Platforms → List String
artifact_digests platforms = map (λ artifact. artifact.sha256) (values platforms)

platform-listed :
    (platform : String) (artifact : PlatformArtifact) (platforms : Platforms)
    → get platform platforms ≡ some artifact
    → listed artifact.sha256 (artifact_digests platforms) ≡ true
unfolding get
platform-listed platform artifact [] e = cc
platform-listed platform artifact ((j, a) ∷ platforms) e =
    go (str_eq j platform) e (platform-listed platform artifact platforms)
  where
    go :
        (b : Bool)
        → (if b then some a else get platform platforms) ≡ some artifact
        → (get platform platforms ≡ some artifact
            → listed artifact.sha256 (artifact_digests platforms) ≡ true)
        → listed artifact.sha256 (a.sha256 ∷ artifact_digests platforms) ≡ true
    go true e r =
        ground
          (arith, ap (λ x. x.sha256) (some-injective a artifact e), eq_iff a.sha256 artifact.sha256)
    go false e r = ground (arith, r e)

module _ (lib : Libraries) (digest : String) where
  load_all-listed :
      (channel version : String) (m : ReleaseManifest) (versions : List String) (s : Storage)
      → load_manifest lib channel version s ≡ ok m
      → listed digest (artifact_digests m.platforms) ≡ true
      → listed version versions ≡ true
      → OnOk (λ ms. listed digest (digests ms) ≡ true) (load_all lib channel versions s)
  unfolding load_all
  load_all-listed channel version m [] s l d e = cc
  load_all-listed channel version m (v ∷ versions) s l d e =
      OnOk-bind P (load_manifest lib channel v s) _ (λ m' l'.
        OnOk-bind P (load_all lib channel versions s) _ (λ rest r.
          go m' l' rest (str_eq v version) refl e
            (λ k. OnOk-at P _ rest (load_all-listed channel version m versions s l d k) r)))
    where
      P : List ReleaseManifest → Type 0
      P ms = listed digest (digests ms) ≡ true

      go :
          (m' : ReleaseManifest)
          → load_manifest lib channel v s ≡ ok m'
          → (rest : List ReleaseManifest) (b : Bool) → str_eq v version ≡ b
          → (if b then true else listed version versions) ≡ true
          → (listed version versions ≡ true → listed digest (digests rest) ≡ true)
          → listed digest (artifact_digests m'.platforms ++ digests rest) ≡ true
      go m' l' rest true i e r =
          let same =
            ok-injective m m' (
              sym l
              ∙ ap (λ x. load_manifest lib channel x s) (sym ((eq_iff v version).0 i))
              ∙ l') in
          ground (
            arith,
            listed-append digest (artifact_digests m'.platforms) (digests rest),
            ap (λ x. listed digest (artifact_digests x.platforms)) same,
          )
      go m' l' rest false i e r =
          ground (arith, r e, listed-append digest (artifact_digests m'.platforms) (digests rest))

  referenced-listed :
      (channel : String) (channels : List String) (s : Storage)
      → OnOk (λ ms. listed digest (digests ms) ≡ true) (list_releases lib channel s)
      → listed channel channels ≡ true
      → OnOk (λ ds. listed digest ds ≡ true) (referenced lib channels s)
  unfolding referenced
  referenced-listed channel [] s l e = cc
  referenced-listed channel (c ∷ channels) s l e = OnOk-bind Q (list_releases lib c s) _ (λ ms i.
      OnOk-bind Q (referenced lib channels s) _ (λ rest r.
        go ms i rest (str_eq c channel) refl e
          (λ k. OnOk-at Q _ rest (referenced-listed channel channels s l k) r)))
    where
      Q : List String → Type 0
      Q ds = listed digest ds ≡ true

      go :
          (ms : List ReleaseManifest)
          → list_releases lib c s ≡ ok ms
          → (rest : List String) (b : Bool) → str_eq c channel ≡ b
          → (if b then true else listed channel channels) ≡ true
          → (listed channel channels ≡ true → listed digest rest ≡ true)
          → listed digest (digests ms ++ rest) ≡ true
      go ms i rest true k e r =
          let found =
            OnOk-at (λ ms. listed digest (digests ms) ≡ true) (list_releases lib channel s) ms l
              (ap (λ x. list_releases lib x s) (sym ((eq_iff c channel).0 k)) ∙ i) in
          ground (arith, listed-append digest (digests ms) rest)
      go ms i rest false k e r = ground (arith, r e, listed-append digest (digests ms) rest)

  list_releases-listed :
      (channel version : String) (m : ReleaseManifest) (s : Storage)
      → normalize_version lib version ≡ ok version
      → release_at channel version s ≡ some m
      → listed digest (artifact_digests m.platforms) ≡ true
      → OnOk (λ ms. listed digest (digests ms) ≡ true) (list_releases lib channel s)
  unfolding list_releases
  list_releases-listed channel version m s n e d =
      safe (validate_path_segment channel "channel") refl
    where
      P : List ReleaseManifest → Type 0
      P ms = listed digest (digests ms) ≡ true

      loads :
          validate_path_segment channel "channel" ≡ ok tt
          → load_manifest lib channel version s ≡ ok m
      loads v = unfold load_manifest in rw v (rw n (rw e refl))

      safe :
          (r : Result (Unit {0}))
          → validate_path_segment channel "channel" ≡ r
          → OnOk P (r >> load_all lib channel (keys (channel_dir channel s)) s)
      safe (err failure) v = tt
      safe (ok _) v =
          load_all-listed channel version m (keys (channel_dir channel s)) s (loads v) d
            (get-listed version m (channel_dir channel s) e)

none-some : (m : ReleaseManifest) → Path (Option ReleaseManifest) none (some m) → ⊥
none-some m e = cc

channel_listed :
    (channel version : String) (m : ReleaseManifest) (s : Storage)
    → release_at channel version s ≡ some m
    → listed channel (keys s.releases) ≡ true
channel_listed channel version m s e = go (get channel s.releases) refl e
  where
    empty : (v : String) → Path (Option ReleaseManifest) (get v []) (some m) → ⊥
    empty v e = unfold get in none-some m e

    go :
        (o : Option (List (String × ReleaseManifest)))
        → get channel s.releases ≡ o
        → get version (unwrap_or o []) ≡ some m
        → listed channel (keys s.releases) ≡ true
    go none i e = elim (empty version e) [ ]
    go (some dir) i e = get-listed channel dir s.releases i

-- Pruning keeps each blob that a release needs: when it succeeds, an artifact of a release that is in
-- the storage under a normalized version is still in the blob storage with its length if it was and its
-- digest is well-formed, so that its directory is not taken for a temporary one, and the releases are
-- unchanged.
pub prune_keeps_blobs :
    (lib : Libraries) (s pruned : Storage) (channel version platform : String) (m : ReleaseManifest)
    (artifact : PlatformArtifact)
    → normalize_version lib version ≡ ok version
    → release_at channel version s ≡ some m
    → get platform m.platforms ≡ some artifact
    → IsBlob s.blobs artifact
    → validate_sha256 artifact.sha256 ≡ ok tt
    → prune_unreferenced_blobs lib s ≡ ok pruned
    → IsBlob pruned.blobs artifact × (pruned.releases ≡ s.releases)
prune_keeps_blobs lib s pruned channel version platform m artifact n e p (file, i, l) v r =
    OnOk-at Q (prune_unreferenced_blobs lib s) pruned prune r
  where
    Q : Storage → Type 0
    Q after = IsBlob after.blobs artifact × (after.releases ≡ s.releases)

    kept : OnOk (λ ds. listed artifact.sha256 ds ≡ true) (referenced lib (keys s.releases) s)
    kept =
        referenced-listed lib artifact.sha256 channel (keys s.releases) s
          (list_releases-listed lib artifact.sha256 channel version m s n e
            (platform-listed platform artifact m.platforms p))
          (channel_listed channel version m s e)

    prune : OnOk Q (prune_unreferenced_blobs lib s)
    prune =
        unfold prune_unreferenced_blobs in
        OnOk-bind Q (referenced lib (keys s.releases) s) _ (λ ds c. (
          (
            file,
            get-keep_listed artifact.sha256 ds s.blobs (not_temporary artifact.sha256 v)
                  (OnOk-at (λ ds. listed artifact.sha256 ds ≡ true) _ ds kept c)
                ∙ i,
            l,
          ),
          refl,
        ))
