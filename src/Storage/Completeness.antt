-- ===== src/Storage/Completeness.antt =====
-- The mutations of src/storage.rs keep every published artifact in the blob storage.
use mathlib.Core.Path.{subst⁻¹}
use update_delivery_system.Prelude.{
  ℕ, ◌≡◌, refl, String, Bool, true, false, Option, none, some, is_some, unwrap_or, List, [], ◌∷◌,
  All, All-map, if◌then◌else◌,
}
use update_delivery_system.Prelude.BTreeMap.{get}
use update_delivery_system.Prelude.BTreeMap.Keys.{text_ord}
use update_delivery_system.Errors.{UdsError, Result, ok, err, ◌>>=◌, ◌>>◌}
use update_delivery_system.Models.{ReleaseUploadMetadata, ReleaseManifest}
use update_delivery_system.Storage.{
  Libraries, Storage, Staged, validate_path_segment, validate_upload_metadata, normalize_version,
}
use update_delivery_system.Storage.Repository.{
  Blobs, Platforms, channel_dir, already_exists, save_manifest, publish, publish_all, new_manifest,
  verify_blobs, found, load_manifest, put_new, put_checked, put_release, rewrite, update_checked,
  update_release, patch_changelog, withdraw_release, copy_verified, copy_checked, copy_release,
}
use update_delivery_system.Errors.Outcomes.{OnOk, OnOk-bind, OnOk-then}
use update_delivery_system.Storage.Blobs.{
  AllValues, insert-AllValues, get-AllValues, AreBlobs, IsComplete, Extends, AreBlobs-Extends,
  AreMeasured, AllPublished, publish_all-AllPublished,
}
use update_delivery_system.Storage.Mutations.{
  Mutation, put, patch, withdraw, copy, mutate, mutate_all,
}

abbrev pub HasBlobs : Blobs → ReleaseManifest → Type 0
HasBlobs blobs m = AreBlobs blobs m.platforms

pub channel_dir-AllValues :
    (channel : String) (s : Storage)
    → IsComplete s
    → AllValues (HasBlobs s.blobs) (channel_dir channel s)
channel_dir-AllValues channel s h = go (get channel s.releases) refl
  where
    go :
        (o : Option (List (String × ReleaseManifest)))
        → get channel s.releases ≡ o
        → AllValues (HasBlobs s.blobs) (unwrap_or o [])
    go none e = tt
    go (some releases) e =
        get-AllValues (AllValues (HasBlobs s.blobs)) channel releases s.releases h e

save_manifest-IsComplete :
    (channel version : String) (m : ReleaseManifest) (s : Storage)
    → IsComplete s
    → HasBlobs s.blobs m
    → IsComplete (save_manifest channel version m s)
unfolding save_manifest
save_manifest-IsComplete channel version m s h b =
    insert-AllValues (AllValues (HasBlobs s.blobs)) channel _ s.releases
      (insert-AllValues (HasBlobs s.blobs) version m (channel_dir channel s) b
        (channel_dir-AllValues channel s h))
      h

publish-IsComplete :
    (io : Option UdsError) (m : ReleaseManifest) (before after : Storage)
    → IsComplete before
    → IsComplete after
    → IsComplete (publish io m before after).1
publish-IsComplete none m before after h k = k
publish-IsComplete (some e) m before after h k = h

IsComplete-Extends :
    (s : Storage) (blobs : Blobs)
    → Extends s.blobs blobs
    → IsComplete s
    → IsComplete (record s { blobs = blobs })
IsComplete-Extends s blobs x h =
    All-map (λ c. AllValues (HasBlobs s.blobs) c.1) (λ c. AllValues (HasBlobs blobs) c.1) s.releases
      (λ c.
        All-map (λ v. HasBlobs s.blobs v.1) (λ v. HasBlobs blobs v.1) c.1
          (λ v. AreBlobs-Extends s.blobs blobs v.1.platforms x))
      h

-- The files of a publication have the lengths that were counted.
abbrev pub IsMeasured : Mutation → Type 0
IsMeasured (put io now limit channel metadata files policy) = AreMeasured files
IsMeasured _ = Unit

module _ (lib : Libraries) where
  load_manifest-HasBlobs :
      (channel version : String) (s : Storage)
      → IsComplete s
      → OnOk (HasBlobs s.blobs) (load_manifest lib channel version s)
  unfolding load_manifest
  load_manifest-HasBlobs channel version s h =
      OnOk-bind (HasBlobs s.blobs) _ _ (λ v _. go v (get v (channel_dir channel s)) refl)
    where
      go :
          (v : String) (o : Option ReleaseManifest)
          → get v (channel_dir channel s) ≡ o
          → OnOk (HasBlobs s.blobs) (found lib channel v o)
      go v none e = tt
      go v (some m) e =
          get-AllValues (HasBlobs s.blobs) v m (channel_dir channel s)
            (channel_dir-AllValues channel s h) e

  put_release-IsComplete :
      (io : Option UdsError) (now : ℕ) (limit channel : String) (metadata : ReleaseUploadMetadata)
      (files : Staged) (policy : _) (s : Storage)
      → AreMeasured files
      → IsComplete s
      → IsComplete (put_release lib io now limit channel metadata files policy s).1
  unfolding put_release put_checked put_new
  put_release-IsComplete io now limit channel metadata files policy s m h = checked (
      validate_path_segment channel "channel"
      >> validate_upload_metadata lib limit metadata files policy
      >> normalize_version lib metadata.version)
    where
      new :
          (version : String) (r : Result Platforms × Blobs)
          → AllPublished s.blobs r
          → IsComplete (put_new lib io now channel version metadata s r).1
      new version (err e, blobs) p = IsComplete-Extends s blobs p.extends h
      new version (ok platforms, blobs) p =
          let k = IsComplete-Extends s blobs p.extends h in
          publish-IsComplete io (new_manifest lib now version metadata platforms)
            (record s { blobs = blobs }) _ k
            (save_manifest-IsComplete channel version
              (new_manifest lib now version metadata platforms) (record s { blobs = blobs }) k
              p.are_blobs)

      fresh :
          (version : String) (b : Bool)
          → IsComplete
              (if b
                then (err (already_exists channel version), s)
                else put_new lib io now channel version metadata s
                    (publish_all metadata.platforms files [] s.blobs)).1
      fresh version true = h
      fresh version false =
          new version _ (publish_all-AllPublished metadata.platforms files [] s.blobs m tt)

      checked :
          (r : Result String) → IsComplete (put_checked lib io now channel metadata files s r).1
      checked (err e) = h
      checked (ok version) = fresh version (is_some (get version (channel_dir channel s)))

  update_release-IsComplete :
      (io : Option UdsError) (f : ReleaseManifest → ReleaseManifest) (channel version : String)
      (s : Storage)
      → ((m : ReleaseManifest) → (f m).platforms ≡ m.platforms)
      → IsComplete s
      → IsComplete (update_release lib io f channel version s).1
  unfolding update_release update_checked rewrite
  update_release-IsComplete io f channel version s keeps h = checked (normalize_version lib version)
    where
      loaded :
          (v : String) (r : Result ReleaseManifest)
          → OnOk (HasBlobs s.blobs) r
          → IsComplete (rewrite lib io f channel s v r).1
      loaded v (err e) b = h
      loaded v (ok m) b =
          publish-IsComplete io (f m) s _ h
            (save_manifest-IsComplete channel v (f m) s h (subst⁻¹ (AreBlobs s.blobs) (keeps m) b))

      checked : (r : Result String) → IsComplete (update_checked lib io f channel s r).1
      checked (err e) = h
      checked (ok v) = loaded v _ (load_manifest-HasBlobs channel v s h)

  copy_release-IsComplete :
      (io : Option UdsError) (now : ℕ) (source target version : String) (s : Storage)
      → IsComplete s
      → IsComplete (copy_release lib io now source target version s).1
  unfolding copy_release copy_checked copy_verified
  copy_release-IsComplete io now source target version s h = checked (
      validate_path_segment source "source_channel"
      >> validate_path_segment target "target_channel"
      >> normalize_version lib version)
    where
      verified :
          (v : String) (r : Result ReleaseManifest)
          → OnOk (HasBlobs s.blobs) r
          → IsComplete (copy_verified lib io now target v s r).1
      verified v (err e) b = h
      verified v (ok m) b =
          publish-IsComplete io (record m { updated_at = now }) s _ h
            (save_manifest-IsComplete target v (record m { updated_at = now }) s h b)

      loaded :
          (v : String) (r : Result ReleaseManifest)
          → OnOk (HasBlobs s.blobs) r
          → OnOk (HasBlobs s.blobs) (r >>= λ m. verify_blobs m.platforms s.blobs >> ok m)
      loaded v (err e) b = tt
      loaded v (ok m) b = OnOk-then (HasBlobs s.blobs) (verify_blobs m.platforms s.blobs) (ok m) b

      fresh :
          (v : String) (b : Bool)
          → IsComplete
              (if b
                then (err (already_exists target v), s)
                else copy_verified lib io now target v s (
                    load_manifest lib source v s >>= λ m.
                    verify_blobs m.platforms s.blobs >> ok m)).1
      fresh v true = h
      fresh v false =
          verified v _
            (loaded v (load_manifest lib source v s) (load_manifest-HasBlobs source v s h))

      checked : (r : Result String) → IsComplete (copy_checked lib io now source target s r).1
      checked (err e) = h
      checked (ok v) = fresh v (is_some (get v (channel_dir target s)))

  mutate-IsComplete :
      (mutation : Mutation) (s : Storage)
      → IsMeasured mutation
      → IsComplete s
      → IsComplete (mutate lib mutation s)
  unfolding mutate patch_changelog withdraw_release
  mutate-IsComplete (put io now limit channel metadata files policy) s m h =
      put_release-IsComplete io now limit channel metadata files policy s m h
  mutate-IsComplete (patch io now channel version notes) s m h =
      update_release-IsComplete io _ channel version s (λ m. refl) h
  mutate-IsComplete (withdraw io now channel version) s m h =
      update_release-IsComplete io _ channel version s (λ m. refl) h
  mutate-IsComplete (copy io now source target version) s m h =
      copy_release-IsComplete io now source target version s h

-- If every artifact of every release is in the blob storage with its length, this is so after any
-- sequence of publications, changes of notes, withdrawals and copies, also when some of them fail,
-- provided that the files of each publication have the lengths that the upload has counted.
pub mutations-IsComplete :
    (lib : Libraries) (mutations : List Mutation) (s : Storage)
    → All IsMeasured mutations
    → IsComplete s
    → IsComplete (mutate_all lib mutations s)
unfolding mutate_all
mutations-IsComplete lib [] s m h = h
mutations-IsComplete lib (mutation ∷ mutations) s (m, rest) h =
    mutations-IsComplete lib mutations (mutate lib mutation s) rest
      (mutate-IsComplete lib mutation s m h)
