-- ===== src/Routes/Uploads.antt =====
-- What `read_release_multipart` of src/routes/mod.rs accepts.
use mathlib.Core.Path.{subst}
use update_delivery_system.Prelude.{
  ℕ, suc, ◌+◌, inl, inr, eq_iff, ◌≤◌, ◌<◌, ◌≡◌, refl, ap, ◌∙◌, String, Bool, true, false, Option,
  none, some, List, [], ◌∷◌, length, str_eq, arith, if◌then◌else◌,
}
use update_delivery_system.Prelude.Words.{u64_max}
use update_delivery_system.Errors.{ok}
use update_delivery_system.Errors.Outcomes.{>>=-succeeds}
use update_delivery_system.Models.{ReleaseUploadMetadata, UploadPolicy}
use update_delivery_system.Storage.{Staged}
use update_delivery_system.Storage.Blobs.{AllValues}
use update_delivery_system.Config.{UploadConfig, policy}
use update_delivery_system.Config.Policy.{policy_iff}
use update_delivery_system.Routes.Multipart.{
  Received, broken, got, Field, Decoder, MultipartState, read_file, read_metadata_field, read_named,
  read_field, read_fields, staged_multipart, read_release_multipart,
}
use update_delivery_system.Routes.Counted.{AreKeyed, sizes}
use update_delivery_system.Routes.Measured.{
  IsField, present, IsStaged, MetadataFits, IsWithin, read_file-IsWithin,
  read_metadata_field-IsWithin,
}

module _ (decoder : Decoder) (p : UploadPolicy) (From : Field → Type 0)
    (low : p.max_artifact_bytes < u64_max) (low_total : p.max_total_artifact_bytes < u64_max)
    (low_metadata : p.max_metadata_bytes < u64_max) where
  read_field-IsWithin :
      (field : Field) (n : ℕ) (st st' : MultipartState)
      → From field
      → IsWithin decoder p From n st
      → read_field decoder p field st ≡ ok st'
      → IsWithin decoder p From (suc n) st'
  unfolding read_field
  read_field-IsWithin field n st st' from i h = go field.name refl h
    where
      named :
          (name : String)
          → field.name ≡ some name
          → (t : Bool) → str_eq name "metadata" ≡ t
          → (if t
              then read_metadata_field decoder p field.chunks st
              else read_file decoder p name field.chunks st)
            ≡ ok st'
          → IsWithin decoder p From (suc n) st'
      named name e true m g =
          read_metadata_field-IsWithin decoder p From n low low_total low_metadata field st st' from
            (e ∙ ap some ((eq_iff name "metadata").0 m)) i g
      named name e false m g =
          read_file-IsWithin decoder p From n low low_total low_metadata field name st st' from e i
            g

      go :
          (o : Option String)
          → field.name ≡ o
          → read_named decoder p field st o ≡ ok st'
          → IsWithin decoder p From (suc n) st'
      go none e g = cc
      go (some name) e g = named name e (str_eq name "metadata") refl g

  read_fields-IsWithin :
      (fields : List (Received Field)) (n : ℕ) (st st' : MultipartState)
      → ((field : Field) → IsField field fields → From field)
      → IsWithin decoder p From n st
      → read_fields decoder p fields st ≡ ok st'
      → IsWithin decoder p From (n + length fields) st'
  unfolding read_fields
  read_fields-IsWithin [] n st st' from i h =
      let q : st ≡ st' = cc in
      let m : n ≡ n + 0 = omega arith in
      subst (λ (k : ℕ). IsWithin decoder p From k st') m (subst (IsWithin decoder p From n) q i)
  read_fields-IsWithin (broken e ∷ fields) n st st' from i h = cc
  read_fields-IsWithin (got field ∷ fields) n st st' from i h =
      let (next, e, f) = >>=-succeeds (read_field decoder p field st) _ h in
      let m : suc n + length fields ≡ n + length (got field ∷ fields) = omega arith in
      subst (λ (k : ℕ). IsWithin decoder p From k st') m
        (read_fields-IsWithin fields (suc n) next st' (λ x k. from x (inr k))
          (read_field-IsWithin field n st next (from field (inl refl)) i e) f)

-- What an accepted upload satisfies: each staged file holds the bytes of the field of its name, with
-- their size and digest, and the metadata is that of the text of the field `metadata`; no file is too
-- large, nor are there too many files or bytes; and no field is left out.
abbrev pub FitsPolicy :
    Decoder → UploadPolicy → List (Received Field) → ReleaseUploadMetadata → Staged → Type 0
FitsPolicy decoder p fields metadata files =
    AllValues (IsStaged decoder p (λ field. IsField field fields)) files
    × AreKeyed files
    × (length files ≤ p.max_platforms)
    × (sizes files ≤ p.max_total_artifact_bytes)
    × MetadataFits decoder p (λ field. IsField field fields) (some metadata)
    × (length fields ≡ length files + 1)

-- Under the policy of a configuration, whatever the chunks of an upload are: if it is accepted, each
-- staged file stands under the name of its field, and holds the bytes that arrived in the field of that
-- name, in their order, and the size and the digest recorded for it are those of these bytes; no file
-- exceeds its limit, the files together and their number do not exceed theirs; the metadata was parsed
-- from the bytes of a field `metadata`, which are within their limit; and the fields are one more than
-- the files. The calls of the file system succeed.
pub read_release_multipart_fits :
    (decoder : Decoder) (u : UploadConfig) (p : UploadPolicy) (fields : List (Received Field))
    (metadata : ReleaseUploadMetadata) (files : Staged)
    → policy u ≡ ok p
    → read_release_multipart decoder p fields ≡ ok (metadata, files)
    → FitsPolicy decoder p fields metadata files
unfolding read_release_multipart
read_release_multipart_fits decoder u p fields metadata files e h =
    let (a, t, m, n, la, lt, lm) = (policy_iff u p).0 e in
    let (st, f, g) = >>=-succeeds (read_fields decoder p fields empty) _ h in
    finish st st.metadata
      (read_fields-IsWithin decoder p From (omega arith) (omega arith) (omega arith) fields 0 empty
        st (λ field k. k)
        (record {
          staged = tt;
          keyed = tt;
          number = omega arith;
          summed = omega arith;
          within_total = omega arith;
          metadata_fits = tt;
          counted = refl;
        })
        f)
      refl g
  where
    From : Field → Type 0
    From field = IsField field fields

    empty : MultipartState
    empty = record { metadata = none; files = []; total_artifact_bytes = 0 }

    finish :
        (st : MultipartState) (o : Option ReleaseUploadMetadata)
        → IsWithin decoder p From (0 + length fields) st
        → st.metadata ≡ o
        → staged_multipart st o ≡ ok (metadata, files)
        → FitsPolicy decoder p fields metadata files
    finish st none i q g = cc
    finish st (some m) i q g =
        let r : m ≡ metadata = cc in
        let s : st.files ≡ files = cc in
        let one : present st.metadata ≡ 1 = ap present q in
        (
          subst (AllValues (IsStaged decoder p From)) s i.staged,
          subst AreKeyed s i.keyed,
          subst (λ (l : Staged). length l ≤ p.max_platforms) s i.number,
          subst (λ (l : Staged). sizes l ≤ p.max_total_artifact_bytes) s
              (omega (arith, i.summed, i.within_total)),
          subst (MetadataFits decoder p From) (q ∙ ap some r) i.metadata_fits,
          subst (λ (l : Staged). length fields ≡ length l + 1) s (omega (arith, i.counted, one)),
        )
