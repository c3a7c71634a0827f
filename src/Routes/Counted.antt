-- ===== src/Routes/Counted.antt =====
-- The counters and the map of files of `read_release_multipart` of src/routes/mod.rs.
use mathlib.Core.Path.{subst}
use update_delivery_system.Prelude.{All, str_eq}
use update_delivery_system.Prelude.{
  ℕ, ◌+◌, ◌≤◌, ◌<◌, ◌≡◌, refl, String, Bool, true, false, none, List, [], ◌∷◌, ◌++◌, length,
  length-append, ltb, arith, if◌then◌else◌,
}
use update_delivery_system.Prelude.Words.{saturating_add, u64_max}
use update_delivery_system.Prelude.BTreeMap.{get, insert}
use update_delivery_system.Prelude.BTreeMap.Keys.{text_ord}
use update_delivery_system.Errors.{ok, err, payload_too_large}
use update_delivery_system.Errors.Outcomes.{>>=-succeeds}
use update_delivery_system.Models.{UploadPolicy}
use update_delivery_system.Storage.{StagedArtifact, Staged}
use update_delivery_system.Routes.Multipart.{
  Bytes, Received, broken, got, Writing, write_chunk, read_chunks, read_metadata,
}

-- The sizes of the staged files together.
abbrev pub sizes : Staged → ℕ
sizes [] = 0
sizes ((name, staged) ∷ files) = staged.size + sizes files

pub sizes-insert :
    (name : String) (staged : StagedArtifact) (files : Staged)
    → get name files ≡ none
    → sizes (insert name staged files) ≡ staged.size + sizes files
unfolding get insert
sizes-insert name staged [] h = refl
sizes-insert name staged ((j, w) ∷ files) h = ground (arith, sizes-insert name staged files)

pub length-insert :
    (name : String) (staged : StagedArtifact) (files : Staged)
    → get name files ≡ none
    → length (insert name staged files) ≡ length files + 1
unfolding get insert
length-insert name staged [] h = omega arith
length-insert name staged ((j, w) ∷ files) h = ground (arith, length-insert name staged files)

-- Each staged file stands under the name of its field.
abbrev pub AreKeyed : Staged → Type 0
AreKeyed files = All (λ e. e.1.field_name ≡ e.0) files

pub insert-AreKeyed :
    (name : String) (staged : StagedArtifact) (files : Staged)
    → staged.field_name ≡ name
    → AreKeyed files
    → AreKeyed (insert name staged files)
unfolding insert
insert-AreKeyed name staged [] q h = (q, tt)
insert-AreKeyed name staged ((j, w) ∷ files) q (p, h) =
    go (insert-AreKeyed name staged files q h) (str_eq j name) (text_ord.lt name j)
  where
    go :
        AreKeyed (insert name staged files)
        → (b c : Bool)
        → AreKeyed (
            if b
            then (name, staged) ∷ files
            else if c
            then (name, staged) ∷ (j, w) ∷ files
            else (j, w) ∷ insert name staged files)
    go r true c = (q, h)
    go r false true = (q, (p, h))
    go r false false = (p, r)

-- The counters of a file are right, and within the limits.
pub record IsCounted (p : UploadPolicy) (before : ℕ) (w : Writing) : Type 0 where
  pub counted : w.size ≡ length w.content
  pub within : w.size ≤ p.max_artifact_bytes
  pub added : w.total ≡ before + w.size
  pub within_total : w.total ≤ p.max_total_artifact_bytes

module _ (p : UploadPolicy) (low : p.max_artifact_bytes < u64_max)
    (low_total : p.max_total_artifact_bytes < u64_max) (before : ℕ) where
  write_chunk-IsCounted :
      (name : String) (chunk : Bytes) (w w' : Writing)
      → IsCounted p before w
      → write_chunk p name chunk w ≡ ok w'
      → IsCounted p before w'
  unfolding write_chunk saturating_add
  write_chunk-IsCounted name chunk w w' c h = ground (arith, length-append w.content chunk)

  pub read_chunks-IsCounted :
      (name : String) (chunks : List (Received Bytes)) (w w' : Writing)
      → IsCounted p before w
      → read_chunks p name chunks w ≡ ok w'
      → IsCounted p before w'
  unfolding read_chunks
  read_chunks-IsCounted name [] w w' c h = subst (IsCounted p before) (cc) c
  read_chunks-IsCounted name (broken e ∷ chunks) w w' c h = cc
  read_chunks-IsCounted name (got chunk ∷ chunks) w w' c h =
      let (v, e, f) = >>=-succeeds (write_chunk p name chunk w) _ h in
      read_chunks-IsCounted name chunks v w' (write_chunk-IsCounted name chunk w v c e) f

  pub start_IsCounted :
      before ≤ p.max_total_artifact_bytes
      → IsCounted p before (record { content = []; hashed = []; size = 0; total = before })
  start_IsCounted h = record {
    counted = refl;
    within = omega arith;
    added = omega arith;
    within_total = h;
  }

pub read_metadata_fits :
    (p : UploadPolicy) (chunks : List (Received Bytes)) (bytes bytes' : Bytes)
    → p.max_metadata_bytes < u64_max
    → length bytes ≤ p.max_metadata_bytes
    → read_metadata p chunks bytes ≡ ok bytes'
    → length bytes' ≤ p.max_metadata_bytes
unfolding read_metadata
read_metadata_fits p [] bytes bytes' low l h = let e : bytes ≡ bytes' = cc in rw (← e) l
read_metadata_fits p (broken e ∷ chunks) bytes bytes' low l h = cc
read_metadata_fits p (got chunk ∷ chunks) bytes bytes' low l h =
    go (ltb p.max_metadata_bytes (saturating_add (length bytes) (length chunk))) refl h
      (λ k. read_metadata_fits p chunks (bytes ++ chunk) bytes' low k)
  where
    go :
        (t : Bool)
        → ltb p.max_metadata_bytes (saturating_add (length bytes) (length chunk)) ≡ t
        → (if t
            then err (payload_too_large "release metadata exceeds the configured limit")
            else read_metadata p chunks (bytes ++ chunk))
          ≡ ok bytes'
        → (length (bytes ++ chunk) ≤ p.max_metadata_bytes
            → read_metadata p chunks (bytes ++ chunk) ≡ ok bytes'
            → length bytes' ≤ p.max_metadata_bytes)
        → length bytes' ≤ p.max_metadata_bytes
    go true e g k = cc
    go false e g k = k (unfold saturating_add in ground (arith, length-append bytes chunk)) g
