-- ===== src/Routes/Measured.antt =====
-- What an upload that src/routes/mod.rs has read says of the files that it has staged.
use mathlib.Core.Path.{subst}
use update_delivery_system.Prelude.{
  ℕ, suc, ◌⊎◌, ◌+◌, ◌≤◌, ◌<◌, ◌≡◌, refl, sym, ap, ◌∙◌, String, Bool, true, false, Option, none,
  some, is_some, List, [], ◌∷◌, length, leb, arith, if◌then◌else◌,
}
use update_delivery_system.Prelude.Words.{u64_max}
use update_delivery_system.Prelude.BTreeMap.{get}
use update_delivery_system.Prelude.BTreeMap.Keys.{text_ord}
use update_delivery_system.Prelude.Text.{◌<>◌}
use update_delivery_system.Errors.{ok, err, bad_request, ◌>>=◌}
use update_delivery_system.Errors.Outcomes.{>>=-succeeds}
use update_delivery_system.Models.{ReleaseUploadMetadata, UploadPolicy}
use update_delivery_system.Storage.{StagedArtifact}
use update_delivery_system.Storage.Blobs.{AllValues, insert-AllValues}
use update_delivery_system.Routes.Multipart.{
  Bytes, Received, got, Field, Decoder, MultipartState, Writing, read_chunks, parsed_metadata,
  stage, read_file, read_metadata_field, read_metadata,
}
use update_delivery_system.Routes.Received.{received, read_chunks-Adds, read_metadata-Adds}
use update_delivery_system.Routes.Counted.{
  sizes, sizes-insert, length-insert, AreKeyed, insert-AreKeyed, IsCounted, read_chunks-IsCounted,
  start_IsCounted, read_metadata_fits,
}

-- A field that an upload delivers.
abbrev pub IsField : Field → List (Received Field) → Type 0
IsField field [] = ⊥
IsField field (r ∷ rest) = (r ≡ got field) ⊎ IsField field rest

-- A field of an upload with that name which arrives whole, with its bytes.
abbrev pub Arrived : (Field → Type 0) → String → Bytes → Type 0
Arrived From name bytes =
    (field : Field) × From field × (field.name ≡ some name) × (received field.chunks ≡ some bytes)

-- A staged file: it holds the bytes of the field of its name, its size and its digest are those of
-- these bytes, and it is within the limit.
abbrev pub IsStaged : Decoder → UploadPolicy → (Field → Type 0) → StagedArtifact → Type 0
IsStaged decoder p From staged =
    (bytes : Bytes) × Arrived From staged.field_name bytes
    × (staged.path ≡ record { len = length bytes; digest = decoder.sha256_hex bytes })
    × (staged.size ≡ length bytes)
    × (staged.sha256 ≡ decoder.sha256_hex bytes)
    × (staged.size ≤ p.max_artifact_bytes)

abbrev pub MetadataFits :
    Decoder → UploadPolicy → (Field → Type 0) → Option ReleaseUploadMetadata → Type 0
MetadataFits decoder p From none = Unit
MetadataFits decoder p From (some metadata) =
    (bytes : Bytes) × Arrived From "metadata" bytes
    × (decoder.parse_metadata bytes ≡ some metadata)
    × (length bytes ≤ p.max_metadata_bytes)

abbrev pub present : Option ReleaseUploadMetadata → ℕ
present none = 0
present (some metadata) = 1

-- The state after `n` fields.
pub record IsWithin (decoder : Decoder) (p : UploadPolicy) (From : Field → Type 0) (n : ℕ)
    (st : MultipartState) : Type 0 where
  pub staged : AllValues (IsStaged decoder p From) st.files
  pub keyed : AreKeyed st.files
  pub number : length st.files ≤ p.max_platforms
  pub summed : sizes st.files ≤ st.total_artifact_bytes
  pub within_total : st.total_artifact_bytes ≤ p.max_total_artifact_bytes
  pub metadata_fits : MetadataFits decoder p From st.metadata
  pub counted : length st.files + present st.metadata ≡ n

module _ (decoder : Decoder) (p : UploadPolicy) (From : Field → Type 0) (n : ℕ)
    (low : p.max_artifact_bytes < u64_max) (low_total : p.max_total_artifact_bytes < u64_max)
    (low_metadata : p.max_metadata_bytes < u64_max) where
  stage-IsWithin :
      (st : MultipartState) (name : String) (w : Writing) (bytes : Bytes)
      → get name st.files ≡ none
      → leb p.max_platforms (length st.files) ≡ false
      → Arrived From name bytes
      → w.content ≡ bytes
      → w.hashed ≡ bytes
      → IsWithin decoder p From n st
      → IsCounted p st.total_artifact_bytes w
      → IsWithin decoder p From (suc n) (stage decoder p st name w)
  stage-IsWithin st name w bytes free room arrived content hashed i c = record {
    staged =
        insert-AllValues (IsStaged decoder p From) name artifact st.files
          (
            bytes,
            arrived,
            ap (λ b. record { len = length b; digest = decoder.sha256_hex b }) content,
            c.counted ∙ ap length content,
            ap decoder.sha256_hex hashed,
            c.within,
          )
          i.staged;
    keyed = insert-AreKeyed name artifact st.files refl i.keyed;
    number = ground (arith, length-insert name artifact st.files free);
    summed = omega (arith, sizes-insert name artifact st.files free, c.added, i.summed);
    within_total = c.within_total;
    metadata_fits = i.metadata_fits;
    counted = omega (arith, length-insert name artifact st.files free, i.counted);
  }
    where
      artifact : StagedArtifact
      artifact = record {
        field_name = name;
        path = record { len = length w.content; digest = decoder.sha256_hex w.content };
        size = w.size;
        sha256 = decoder.sha256_hex w.hashed;
      }

  pub read_file-IsWithin :
      (field : Field) (name : String) (st st' : MultipartState)
      → From field
      → field.name ≡ some name
      → IsWithin decoder p From n st
      → read_file decoder p name field.chunks st ≡ ok st'
      → IsWithin decoder p From (suc n) st'
  read_file-IsWithin field name st st' from named i h =
      go (get name st.files) refl (leb p.max_platforms (length st.files)) refl h
    where
      start : Writing
      start = record { content = []; hashed = []; size = 0; total = st.total_artifact_bytes }

      go :
          (o : Option StagedArtifact)
          → get name st.files ≡ o
          → (t : Bool) → leb p.max_platforms (length st.files) ≡ t
          → (if is_some o
              then err (bad_request ("duplicate multipart file field '" <> name <> "'"))
              else if t
              then err (bad_request "multipart body contains too many artifact fields")
              else (read_chunks p name field.chunks start >>= λ w. ok (stage decoder p st name w)))
            ≡ ok st'
          → IsWithin decoder p From (suc n) st'
      go (some a) e t f g = cc
      go none e true f g = cc
      go none e false f g =
          let (w, q, r) = >>=-succeeds (read_chunks p name field.chunks start) _ g in
          let ((bytes, a, c), (bytes', a', d)) = read_chunks-Adds p name field.chunks start w q in
          let same : bytes' ≡ bytes = cc in
          let k : stage decoder p st name w ≡ st' = cc in
          subst (IsWithin decoder p From (suc n)) k (
            stage-IsWithin st name w bytes e f (field, from, named, a) c (d ∙ same) i
              (read_chunks-IsCounted p low low_total st.total_artifact_bytes name field.chunks _ w
                (start_IsCounted p low low_total st.total_artifact_bytes i.within_total) q))

  pub read_metadata_field-IsWithin :
      (field : Field) (st st' : MultipartState)
      → From field
      → field.name ≡ some "metadata"
      → IsWithin decoder p From n st
      → read_metadata_field decoder p field.chunks st ≡ ok st'
      → IsWithin decoder p From (suc n) st'
  read_metadata_field-IsWithin field st st' from named i h = go st.metadata refl h
    where
      parsed :
          (bytes : Bytes)
          → st.metadata ≡ none
          → Arrived From "metadata" bytes
          → length bytes ≤ p.max_metadata_bytes
          → (o : Option ReleaseUploadMetadata) → decoder.parse_metadata bytes ≡ o
          → parsed_metadata decoder p st bytes o ≡ ok st'
          → IsWithin decoder p From (suc n) st'
      parsed bytes absent arrived l none e g = cc
      parsed bytes absent arrived l (some metadata) e g =
          let q : record st { metadata = some metadata } ≡ st' = cc in
          let before : present st.metadata ≡ 0 = ap present absent in
          subst (IsWithin decoder p From (suc n)) q (record {
            staged = i.staged;
            keyed = i.keyed;
            number = i.number;
            summed = i.summed;
            within_total = i.within_total;
            metadata_fits = (bytes, arrived, e, l);
            counted = omega (arith, i.counted, before);
          })

      go :
          (o : Option ReleaseUploadMetadata)
          → st.metadata ≡ o
          → (if is_some o
              then err (bad_request "multipart field 'metadata' must occur exactly once")
              else (read_metadata p field.chunks [] >>= λ bytes.
                  parsed_metadata decoder p st bytes (decoder.parse_metadata bytes)))
            ≡ ok st'
          → IsWithin decoder p From (suc n) st'
      go (some m) a g = cc
      go none a g =
          let (bytes, e, f) = >>=-succeeds (read_metadata p field.chunks []) _ g in
          let (rest, q, same) = read_metadata-Adds p field.chunks [] bytes e in
          parsed bytes a (field, from, named, q ∙ ap some (sym same))
            (read_metadata_fits p field.chunks [] bytes low_metadata (omega arith) e)
            (decoder.parse_metadata bytes) refl f
