-- ===== src/Storage/Permanence.antt =====
-- The mutations of src/storage.rs never remove or replace a release.
use mathlib.Core.Option.{some-injective}
use mathlib.Core.Path.{subst}
use update_delivery_system.Prelude.{
  ℕ, ◌≡◌, refl, sym, ap, ◌∙◌, inl, inr, String, Bool, true, false, Option, none, some, is_some,
  List, [], ◌∷◌, if◌then◌else◌,
}
use update_delivery_system.Prelude.BTreeMap.Keys.{text_ord}
use update_delivery_system.Errors.{UdsError, Result, ok, err, ◌>>=◌, ◌>>◌}
use update_delivery_system.Models.{ReleaseUploadMetadata, ReleaseManifest, UploadPolicy}
use update_delivery_system.Storage.{
  Libraries, Storage, Staged, validate_path_segment, validate_upload_metadata, parse_version,
  normalize_version,
}
use update_delivery_system.Storage.Repository.{
  Blobs, Platforms, already_exists, publish_all, new_manifest, verify_blobs, found, load_manifest,
  put_new, put_checked, put_release, rewrite, update_checked, update_release, patch_changelog,
  withdraw_release, copy_verified, copy_checked, copy_release,
}
use update_delivery_system.Storage.Mutations.{
  Mutation, put, patch, withdraw, copy, mutate, mutate_all,
}
use update_delivery_system.Storage.Kept.{
  ShowParses, release_at, IsKept, Keeps, same-Keeps, trans-Keeps, save_manifest-Keeps,
  publish-Keeps, absent_manifest,
}

pub ok-injective : {A : Type 0} (a b : A) → Path (Result A) (ok a) (ok b) → a ≡ b
ok-injective a b e = cc

module _ (lib : Libraries) (law : ShowParses lib) where
  pub normalize_version_idem :
      (text version : String)
      → normalize_version lib text ≡ ok version
      → normalize_version lib version ≡ ok version
  unfolding normalize_version parse_version
  normalize_version_idem text version e = go (parse_version lib text) e
    where
      go :
          (r : Result lib.Version)
          → (r >>= λ v. ok (lib.show_version v)) ≡ ok version
          → normalize_version lib version ≡ ok version
      go (err failure) e = cc
      go (ok v) e =
          subst (λ t. normalize_version lib t ≡ ok t) (ok-injective (lib.show_version v) version e)
            (rw (law.parses v) refl)

  put_release-Keeps :
      (io : Option UdsError) (now : ℕ) (limit channel : String) (metadata : ReleaseUploadMetadata)
      (files : Staged) (policy : UploadPolicy) (s : Storage)
      → Keeps s (put_release lib io now limit channel metadata files policy s).1
  unfolding put_release put_checked put_new
  put_release-Keeps io now limit channel metadata files policy s = checked (
      validate_path_segment channel "channel"
      >> validate_upload_metadata lib limit metadata files policy
      >> normalize_version lib metadata.version)
    where
      new :
          (version : String) (r : Result Platforms × Blobs)
          → is_some (release_at channel version s) ≡ false
          → Keeps s (put_new lib io now channel version metadata s r).1
      new version (err e, blobs) a = same-Keeps s
      new version (ok platforms, blobs) a =
          publish-Keeps io (new_manifest lib now version metadata platforms) s
            (record s { blobs = blobs }) _ (same-Keeps s)
            (save_manifest-Keeps channel version (new_manifest lib now version metadata platforms)
              (record s { blobs = blobs })
              (λ m e.
                absent_manifest (release_at channel version s) m
                  (new_manifest lib now version metadata platforms) a e))

      fresh :
          (version : String) (b : Bool)
          → is_some (release_at channel version s) ≡ b
          → Keeps s
              (if b
                then (err (already_exists channel version), s)
                else put_new lib io now channel version metadata s
                    (publish_all metadata.platforms files [] s.blobs)).1
      fresh version true a = same-Keeps s
      fresh version false a = new version _ a

      checked : (r : Result String) → Keeps s (put_checked lib io now channel metadata files s r).1
      checked (err e) = same-Keeps s
      checked (ok version) = fresh version (is_some (release_at channel version s)) refl

  load_manifest-release_at :
      (channel version : String) (s : Storage) (m : ReleaseManifest)
      → normalize_version lib version ≡ ok version
      → load_manifest lib channel version s ≡ ok m
      → release_at channel version s ≡ some m
  unfolding load_manifest
  load_manifest-release_at channel version s m n =
      rw n (safe (validate_path_segment channel "channel"))
    where
      found_manifest :
          (o : Option ReleaseManifest) → found lib channel version o ≡ ok m → o ≡ some m
      found_manifest none e = cc
      found_manifest (some m') e = ap some (ok-injective m' m e)

      safe :
          (r : Result (Unit {0}))
          → (r >> ok version >>= λ v. found lib channel v (release_at channel v s)) ≡ ok m
          → release_at channel version s ≡ some m
      safe (ok _) e = found_manifest (release_at channel version s) e
      safe (err failure) e = cc

  update_release-Keeps :
      (io : Option UdsError) (f : ReleaseManifest → ReleaseManifest) (channel text : String)
      (s : Storage)
      → ((m : ReleaseManifest) → IsKept m (some (f m)))
      → Keeps s (update_release lib io f channel text s).1
  unfolding update_release update_checked rewrite
  update_release-Keeps io f channel text s kept = checked (normalize_version lib text) refl
    where
      loaded :
          (v : String) (r : Result ReleaseManifest)
          → normalize_version lib v ≡ ok v
          → load_manifest lib channel v s ≡ r
          → Keeps s (rewrite lib io f channel s v r).1
      loaded v (err e) n l = same-Keeps s
      loaded v (ok m) n l = publish-Keeps io (f m) s s _ (same-Keeps s) (
          save_manifest-Keeps channel v (f m) s (λ m' e.
            subst (λ x. IsKept x (some (f m)))
              (some-injective m m' (sym (load_manifest-release_at channel v s m n l) ∙ e))
              (kept m)))

      checked :
          (r : Result String)
          → normalize_version lib text ≡ r
          → Keeps s (update_checked lib io f channel s r).1
      checked (err e) n = same-Keeps s
      checked (ok v) n = loaded v _ (normalize_version_idem text v n) refl

  copy_release-Keeps :
      (io : Option UdsError) (now : ℕ) (source target version : String) (s : Storage)
      → Keeps s (copy_release lib io now source target version s).1
  unfolding copy_release copy_checked copy_verified
  copy_release-Keeps io now source target version s = checked (
      validate_path_segment source "source_channel"
      >> validate_path_segment target "target_channel"
      >> normalize_version lib version)
    where
      verified :
          (v : String) (r : Result ReleaseManifest)
          → is_some (release_at target v s) ≡ false
          → Keeps s (copy_verified lib io now target v s r).1
      verified v (err e) a = same-Keeps s
      verified v (ok m) a =
          publish-Keeps io (record m { updated_at = now }) s s _ (same-Keeps s)
            (save_manifest-Keeps target v (record m { updated_at = now }) s
              (λ m' e.
                absent_manifest (release_at target v s) m' (record m { updated_at = now }) a e))

      fresh :
          (v : String) (b : Bool)
          → is_some (release_at target v s) ≡ b
          → Keeps s
              (if b
                then (err (already_exists target v), s)
                else copy_verified lib io now target v s (
                    load_manifest lib source v s >>= λ m.
                    verify_blobs m.platforms s.blobs >> ok m)).1
      fresh v true a = same-Keeps s
      fresh v false a = verified v _ a

      checked : (r : Result String) → Keeps s (copy_checked lib io now source target s r).1
      checked (err e) = same-Keeps s
      checked (ok v) = fresh v (is_some (release_at target v s)) refl

  mutate-Keeps : (mutation : Mutation) (s : Storage) → Keeps s (mutate lib mutation s)
  unfolding mutate patch_changelog withdraw_release
  mutate-Keeps (put io now limit channel metadata files policy) s =
      put_release-Keeps io now limit channel metadata files policy s
  mutate-Keeps (patch io now channel version notes) s =
      update_release-Keeps io _ channel version s (λ m. (refl, refl, inl refl))
  mutate-Keeps (withdraw io now channel version) s =
      update_release-Keeps io _ channel version s (λ m. (refl, refl, inr refl))
  mutate-Keeps (copy io now source target version) s =
      copy_release-Keeps io now source target version s

  mutate_all-Keeps :
      (mutations : List Mutation) (s : Storage) → Keeps s (mutate_all lib mutations s)
  unfolding mutate_all
  mutate_all-Keeps [] s = same-Keeps s
  mutate_all-Keeps (mutation ∷ mutations) s =
      trans-Keeps s (mutate lib mutation s) (mutate_all lib mutations (mutate lib mutation s))
        (mutate-Keeps mutation s) (mutate_all-Keeps mutations (mutate lib mutation s))

-- When the text of each version parses to it again, no sequence of publications, changes of notes,
-- withdrawals and copies removes a release or replaces its artifacts, also when some of them fail: at
-- its channel and version there is still a release of that version with the same artifacts, and the
-- release is withdrawn if it was before.
pub mutations_keep_releases :
    (lib : Libraries)
    → ShowParses lib
    → (mutations : List Mutation) (s : Storage) (channel version : String) (m : ReleaseManifest)
    → release_at channel version s ≡ some m
    → IsKept m (release_at channel version (mutate_all lib mutations s))
mutations_keep_releases lib law mutations s channel version m e =
    mutate_all-Keeps lib law mutations s channel version m e
