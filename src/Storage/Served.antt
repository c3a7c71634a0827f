-- ===== src/Storage/Served.antt =====
-- `artifact_path` of src/storage.rs: what is served of a release that is in the storage.
use mathlib.Core.Path.{subst}
use update_delivery_system.Prelude.{◌↔◌, ◌==◌}
use update_delivery_system.Prelude.Text.{◌<>◌}
use update_delivery_system.Errors.{not_found}
use update_delivery_system.Errors.Outcomes.{true_of_ok}
use update_delivery_system.Storage.{File, require}
use update_delivery_system.Storage.Repository.{check_blob, platform_artifact}
use update_delivery_system.Storage.Permanence.{ok-injective}
use update_delivery_system.Prelude.{
  ℕ, ◌≡◌, refl, sym, ap, ◌∙◌, String, Option, none, some, arith, ==_iff, eq_iff, str_eq,
}
use update_delivery_system.Prelude.BTreeMap.{get}
use update_delivery_system.Prelude.BTreeMap.Keys.{text_ord}
use update_delivery_system.Errors.{ok, err, ◌>>◌}
use update_delivery_system.Errors.Outcomes.{>>-succeeds, >>=-succeeds}
use update_delivery_system.Models.{PlatformArtifact, ReleaseManifest}
use update_delivery_system.Storage.{
  Libraries, Storage, validate_path_segment, validate_platform_key, validate_sha256,
  normalize_version,
}
use update_delivery_system.Storage.Repository.{Blobs, load_manifest, artifact_path, verify_blob}
use update_delivery_system.Storage.Blobs.{IsBlob}
use update_delivery_system.Storage.Kept.{release_at}

IsBlob-verify_blob :
    (blobs : Blobs) (artifact : PlatformArtifact)
    → IsBlob blobs artifact
    → validate_sha256 artifact.sha256 ≡ ok tt
    → verify_blob artifact blobs ≡ ok tt
unfolding verify_blob
IsBlob-verify_blob blobs artifact (file, e, l) v =
    rw v (rw e (ground (arith, ==_iff file.len artifact.size)))

verify_blob-IsBlob :
    (blobs : Blobs) (artifact : PlatformArtifact)
    → verify_blob artifact blobs ≡ ok tt
    → IsBlob blobs artifact
unfolding verify_blob
verify_blob-IsBlob blobs artifact h =
    let (_, c) = >>-succeeds (validate_sha256 artifact.sha256) _ h in
    go (get artifact.sha256 blobs) refl c
  where
    go :
        (o : Option File)
        → get artifact.sha256 blobs ≡ o
        → check_blob artifact o ≡ ok tt
        → IsBlob blobs artifact
    go none e c = cc
    go (some file) e c =
        (file, e, (==_iff file.len artifact.size).0 (true_of_ok (file.len == artifact.size) _ c))

-- A release that is in the storage, with one of its artifacts.
module _ (lib : Libraries) (s : Storage) (channel version v platform : String) (m : ReleaseManifest)
    (artifact : PlatformArtifact) (c : validate_path_segment channel "channel" ≡ ok tt)
    (k : validate_platform_key platform ≡ ok tt)
    (f : validate_path_segment artifact.file_name "file_name" ≡ ok tt)
    (n : normalize_version lib version ≡ ok v) (n' : normalize_version lib v ≡ ok v)
    (e : release_at channel v s ≡ some m) (p : get platform m.platforms ≡ some artifact)
    (d : validate_sha256 artifact.sha256 ≡ ok tt) where
  artifact_path-ok :
      IsBlob s.blobs artifact
      → artifact_path lib channel version platform artifact.file_name s
        ≡ ok (artifact.sha256, artifact.size)
  unfolding artifact_path load_manifest
  artifact_path-ok b = rw c (
      rw k (
        rw f (
          rw n (
            rw n' (
              rw e (
                rw p (
                  rw ((eq_iff artifact.file_name artifact.file_name).1 refl)
                    (rw (IsBlob-verify_blob s.blobs artifact b d) refl))))))))

  loaded : load_manifest lib channel v s ≡ ok m
  unfolding load_manifest
  loaded = rw c (rw n' (rw e refl))

  -- What is answered when the platform is found.
  served :
      (a : PlatformArtifact) (name : String) (answer : String × ℕ)
      → a ≡ artifact
      → (require (str_eq a.file_name name) (err (not_found ("artifact " <> name <> " not found")))
          >> verify_blob a s.blobs
          >> ok (a.sha256, a.size))
        ≡ ok answer
      → (name ≡ artifact.file_name)
        × (answer ≡ (artifact.sha256, artifact.size))
        × IsBlob s.blobs artifact
  served a name answer same h =
      let (front, last) = >>-succeeds _ (ok (a.sha256, a.size)) h in
      let (guard, verified) = >>-succeeds _ (verify_blob a s.blobs) front in
      (
        sym ((eq_iff a.file_name name).0 (true_of_ok _ _ guard))
            ∙ ap (λ (x : PlatformArtifact). x.file_name) same,
        sym (ok-injective (a.sha256, a.size) answer last)
            ∙ ap (λ (x : PlatformArtifact). (x.sha256, x.size)) same,
        subst (IsBlob s.blobs) same (verify_blob-IsBlob s.blobs a verified),
      )

  pub artifact_path_iff :
      (name : String) (answer : String × ℕ)
      → (artifact_path lib channel version platform name s ≡ ok answer) ↔ (
          (name ≡ artifact.file_name)
          × (answer ≡ (artifact.sha256, artifact.size))
          × IsBlob s.blobs artifact)
  unfolding artifact_path
  artifact_path_iff name answer = (forward, backward)
    where
      forward :
          artifact_path lib channel version platform name s ≡ ok answer
          → (name ≡ artifact.file_name)
            × (answer ≡ (artifact.sha256, artifact.size))
            × IsBlob s.blobs artifact
      forward h =
          let (v', q, g) = >>=-succeeds _ _ h in
          let (_, n'') = >>-succeeds _ (normalize_version lib version) q in
          let same_v : v' ≡ v = ok-injective v' v (sym n'' ∙ n) in
          let (m', l, g2) = >>=-succeeds (load_manifest lib channel v' s) _ g in
          let same_m : m' ≡ m =
            ok-injective m' m (sym l ∙ ap (λ x. load_manifest lib channel x s) same_v ∙ loaded) in
          let (a, r, g3) = >>=-succeeds _ _ g2 in
          let same : a ≡ artifact = ok-injective a artifact (
            sym r
            ∙ ap
                (λ (x : ReleaseManifest).
                  platform_artifact lib platform channel v' (get platform x.platforms))
                same_m
            ∙ ap (platform_artifact lib platform channel v') p) in
          served a name answer same g3

      backward :
          (name ≡ artifact.file_name)
            × (answer ≡ (artifact.sha256, artifact.size))
            × IsBlob s.blobs artifact
          → artifact_path lib channel version platform name s ≡ ok answer
      backward (x, y, b) =
          ap (λ z. artifact_path lib channel version platform z s) x
          ∙ artifact_path-ok b
          ∙ ap ok (sym y)
