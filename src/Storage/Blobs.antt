-- ===== src/Storage/Blobs.antt =====
-- The blobs of src/storage.rs: each artifact that a manifest names is in the blob storage.
use mathlib.Core.Option.{some-injective}
use mathlib.Core.Path.{subst}
use update_delivery_system.Prelude.{
  ◌≡◌, refl, sym, ap, ◌∙◌, String, Bool, true, false, ==_iff, Option, none, some, List, [], ◌∷◌,
  All, All-map, arith, eq_iff, str_eq, if◌then◌else◌,
}
use update_delivery_system.Prelude.BTreeMap.{get, insert, get-insert}
use update_delivery_system.Prelude.BTreeMap.Keys.{text_ord}
use update_delivery_system.Errors.{Result, ok, err}
use update_delivery_system.Models.{UploadPlatformMetadata, PlatformArtifact}
use update_delivery_system.Storage.{File, StagedArtifact, Storage, Staged, validate_sha256}
use update_delivery_system.Storage.Repository.{
  Blobs, Platforms, verify_staged_against_existing, place_blob, publish_blob, artifact_of,
  publish_platform, find_staged, publish_all, after_check, verify_blob,
}
use update_delivery_system.Errors.Outcomes.{OnOk}

module _ {V : Type 0} (Q : V → Type 0) where
  abbrev pub AllValues : List (String × V) → Type 0
  AllValues m = All (λ e. Q e.1) m

  pub insert-AllValues :
      (k : String) (v : V) (m : List (String × V)) → Q v → AllValues m → AllValues (insert k v m)
  unfolding insert
  insert-AllValues k v [] q h = (q, tt)
  insert-AllValues k v ((j, w) ∷ m) q (p, h) =
      go (insert-AllValues k v m q h) (str_eq j k) (text_ord.lt k j)
    where
      go :
          AllValues (insert k v m)
          → (b c : Bool)
          → AllValues
              (if b then (k, v) ∷ m else if c then (k, v) ∷ (j, w) ∷ m else (j, w) ∷ insert k v m)
      go r true c = (q, h)
      go r false true = (q, (p, h))
      go r false false = (p, r)

  pub get-AllValues :
      (k : String) (v : V) (m : List (String × V)) → AllValues m → get k m ≡ some v → Q v
  unfolding get
  get-AllValues k v [] h e = cc
  get-AllValues k v ((j, w) ∷ m) (p, h) e = go (get-AllValues k v m h) (str_eq j k) e
    where
      go : (get k m ≡ some v → Q v) → (b : Bool) → (if b then some w else get k m) ≡ some v → Q v
      go r true e = subst Q (some-injective w v e) p
      go r false e = r e

-- The artifact is in the storage with its length.
abbrev pub IsBlob : Blobs → PlatformArtifact → Type 0
IsBlob blobs artifact =
    (file : File) × (get artifact.sha256 blobs ≡ some file) × (file.len ≡ artifact.size)

abbrev pub AreBlobs : Blobs → Platforms → Type 0
AreBlobs blobs platforms = AllValues (IsBlob blobs) platforms

-- Every artifact of every release is in the storage with its length.
abbrev pub IsComplete : Storage → Type 0
IsComplete s = AllValues (AllValues (λ m. AreBlobs s.blobs m.platforms)) s.releases

-- Blobs are only added.
abbrev pub Extends : Blobs → Blobs → Type 0
Extends before after = (k : String) (f : File) → get k before ≡ some f → get k after ≡ some f

none-some : (f : File) → Path (Option File) none (some f) → ⊥
none-some f e = cc

IsBlob-Extends :
    (before after : Blobs) (artifact : PlatformArtifact)
    → Extends before after
    → IsBlob before artifact
    → IsBlob after artifact
IsBlob-Extends before after artifact x (file, e, l) = (file, x artifact.sha256 file e, l)

insert-Extends :
    (k : String) (file : File) (blobs : Blobs)
    → get k blobs ≡ none
    → Extends blobs (insert k file blobs)
insert-Extends k file blobs e j f h = get-insert k j file blobs ∙ go (str_eq k j) refl
  where
    go : (b : Bool) → str_eq k j ≡ b → (if b then some file else get j blobs) ≡ some f
    go true i = elim (none-some f (sym e ∙ ap (λ x. get x blobs) ((eq_iff k j).0 i) ∙ h)) [ ]
    go false i = h

-- What publishing a staged artifact does to the blobs.
record Published (staged : StagedArtifact) (before : Blobs) (r : Result (Unit {0}) × Blobs)
    : Type 0 where
  pub extends : Extends before r.1
  pub is_blob :
      (upload : UploadPlatformMetadata) → r.0 ≡ ok tt → IsBlob r.1 (artifact_of upload staged)

publish_blob-Published :
    (staged : StagedArtifact) (blobs : Blobs)
    → staged.path.len ≡ staged.size
    → Published staged blobs (publish_blob staged blobs)
unfolding publish_blob place_blob verify_blob verify_staged_against_existing
publish_blob-Published staged blobs m = check (validate_sha256 staged.sha256) refl
  where
    place :
        (o : Option File)
        → get staged.sha256 blobs ≡ o
        → validate_sha256 staged.sha256 ≡ ok tt
        → Published staged blobs (place_blob staged blobs o)
    place none e v = record {
      extends = insert-Extends staged.sha256 staged.path blobs e;
      is_blob = λ upload _. (
        staged.path,
        get-insert staged.sha256 staged.sha256 staged.path blobs
            ∙ ground (arith, eq_iff staged.sha256 staged.sha256),
        m,
      );
    }
    place (some f) e v = record {
      extends = λ k g h. h;
      is_blob = λ upload h. (f, e, ground (arith, ==_iff f.len staged.size));
    }

    check :
        (r : Result (Unit {0}))
        → validate_sha256 staged.sha256 ≡ r
        → Published staged blobs (after_check staged blobs r)
    check (err failure) v = record { extends = λ k g h. h; is_blob = λ upload h. cc }
    check (ok _) v = place (get staged.sha256 blobs) refl v

-- The files of an upload have the lengths that were counted.
abbrev pub AreMeasured : Staged → Type 0
AreMeasured files = AllValues (λ staged. staged.path.len ≡ staged.size) files

-- What publishing the platforms of an upload does to the blobs.
pub record AllPublished (before : Blobs) (r : Result Platforms × Blobs) : Type 0 where
  pub extends : Extends before r.1
  pub are_blobs : OnOk (AreBlobs r.1) r.0

pub AreBlobs-Extends :
    (before after : Blobs) (platforms : Platforms)
    → Extends before after
    → AreBlobs before platforms
    → AreBlobs after platforms
AreBlobs-Extends before after platforms x h =
    All-map (λ e. IsBlob before e.1) (λ e. IsBlob after e.1) platforms
      (λ e. IsBlob-Extends before after e.1 x) h

pub publish_all-AllPublished :
    (uploads : List (String × UploadPlatformMetadata)) (files : Staged) (platforms : Platforms)
    (blobs : Blobs)
    → AreMeasured files
    → AreBlobs blobs platforms
    → AllPublished blobs (publish_all uploads files platforms blobs)
unfolding publish_all find_staged publish_platform
publish_all-AllPublished [] files platforms blobs m h = record {
  extends = λ k f e. e;
  are_blobs = h;
}
publish_all-AllPublished ((key, upload) ∷ rest) files platforms blobs m h =
    find (λ p b. publish_all-AllPublished rest files p b m) (get upload.file_field files) refl
  where
    Next : Type 0
    Next = (p : Platforms) (b : Blobs) → AreBlobs b p → AllPublished b (publish_all rest files p b)

    placed :
        Next
        → (staged : StagedArtifact) (r : Result (Unit {0}) × Blobs) → Published staged blobs r
        → AllPublished blobs
            (publish_platform (publish_all rest files) key upload staged platforms r)
    placed next staged (err e, b) p = record { extends = p.extends; are_blobs = tt }
    placed next staged (ok _, b) p =
        let n = next (insert key (artifact_of upload staged) platforms) b (
          insert-AllValues (IsBlob b) key (artifact_of upload staged) platforms
            (p.is_blob upload refl) (AreBlobs-Extends blobs b platforms p.extends h)) in
        record { extends = λ k f e. n.extends k f (p.extends k f e); are_blobs = n.are_blobs }

    find :
        Next
        → (o : Option StagedArtifact) → get upload.file_field files ≡ o
        → AllPublished blobs (find_staged (publish_all rest files) key upload platforms blobs o)
    find next none e = record { extends = λ k f e. e; are_blobs = tt }
    find next (some staged) e = placed next staged (publish_blob staged blobs) (
        publish_blob-Published staged blobs
          (get-AllValues (λ s. s.path.len ≡ s.size) upload.file_field staged files m e))
