-- ===== src/Routes/Multipart.antt =====
-- `read_release_multipart` of src/routes/mod.rs: the fields of an upload are read chunk by chunk under
-- the upload policy. The calls of the file system succeed. A byte is a number.
use update_delivery_system.Prelude.{
  ℕ, String, Option, none, some, is_some, List, [], ◌∷◌, ◌++◌, length, ltb, leb, ◌==◌, str_eq,
  if◌then◌else◌,
}
use update_delivery_system.Prelude.Text.{◌<>◌}
use update_delivery_system.Prelude.Words.{saturating_add}
use update_delivery_system.Prelude.BTreeMap.{get, insert}
use update_delivery_system.Prelude.BTreeMap.Keys.{text_ord}
use update_delivery_system.Errors.{UdsError, Result, ok, err, ◌>>=◌, bad_request, payload_too_large}
use update_delivery_system.Models.{ReleaseUploadMetadata, UploadPolicy}
use update_delivery_system.Storage.{Staged}

abbrev pub Bytes : Type 0
Bytes = List ℕ

-- The error of the multipart parser, by its status and its text.
pub record MultipartError : Type 0 where
  pub status : ℕ
  pub text : String

-- What the parser delivers next.
pub data Received (A : Type 0) : Type 0 where
  broken : MultipartError → Received A
  got : A → Received A

pub record Field : Type 0 where
  pub name : Option String
  pub chunks : List (Received Bytes)

-- What `sha2` with `hex`, and `serde_json` with its error text, supply.
pub record Decoder : Type 0 where
  pub sha256_hex : Bytes → String
  pub parse_metadata : Bytes → Option ReleaseUploadMetadata
  pub metadata_error : Bytes → String

pub record MultipartState : Type 0 where
  pub metadata : Option ReleaseUploadMetadata
  pub files : Staged
  pub total_artifact_bytes : ℕ

-- A file while its chunks arrive: its content, the bytes that the hasher has seen, and the counters
-- `size` and `total_artifact_bytes`.
pub record Writing : Type 0 where
  pub content : Bytes
  pub hashed : Bytes
  pub size : ℕ
  pub total : ℕ

unfoldable pub map_multipart_error : MultipartError → UdsError
map_multipart_error e =
    if e.status == 413
    then payload_too_large "multipart request exceeds the configured limit"
    else bad_request ("invalid multipart body: " <> e.text)

-- The loop over the chunks of the metadata.
unfoldable pub read_metadata : UploadPolicy → List (Received Bytes) → Bytes → Result Bytes
read_metadata policy [] bytes = ok bytes
read_metadata policy (broken e ∷ chunks) bytes = err (map_multipart_error e)
read_metadata policy (got chunk ∷ chunks) bytes =
    let rest = read_metadata policy chunks (bytes ++ chunk) in
    if ltb policy.max_metadata_bytes (saturating_add (length bytes) (length chunk))
    then err (payload_too_large "release metadata exceeds the configured limit")
    else rest

-- The body of the loop over the chunks of a file.
unfoldable pub write_chunk : UploadPolicy → String → Bytes → Writing → Result Writing
write_chunk policy name chunk w =
    let size = saturating_add w.size (length chunk) in
    let total = saturating_add w.total (length chunk) in
    if ltb policy.max_artifact_bytes size
    then err
        (payload_too_large ("multipart file field '" <> name <> "' exceeds the configured limit"))
    else if ltb policy.max_total_artifact_bytes total
    then err (payload_too_large "release artifacts exceed the configured total limit")
    else ok (record {
      content = w.content ++ chunk;
      hashed = w.hashed ++ chunk;
      size = size;
      total = total;
    })

unfoldable pub read_chunks :
    UploadPolicy → String → List (Received Bytes) → Writing → Result Writing
read_chunks policy name [] w = ok w
read_chunks policy name (broken e ∷ chunks) w = err (map_multipart_error e)
read_chunks policy name (got chunk ∷ chunks) w =
    write_chunk policy name chunk w >>= λ w'. read_chunks policy name chunks w'

abbrev pub staged_multipart :
    MultipartState → Option ReleaseUploadMetadata → Result (ReleaseUploadMetadata × Staged)
staged_multipart st none = err (bad_request "multipart field 'metadata' is required")
staged_multipart st (some metadata) = ok (metadata, st.files)

module _ (decoder : Decoder) (policy : UploadPolicy) where
  abbrev pub parsed_metadata :
      MultipartState → Bytes → Option ReleaseUploadMetadata → Result MultipartState
  parsed_metadata st bytes none =
      err (bad_request ("invalid release metadata: " <> decoder.metadata_error bytes))
  parsed_metadata st bytes (some metadata) = ok (record st { metadata = some metadata })

  abbrev pub stage : MultipartState → String → Writing → MultipartState
  stage st name w = record st {
    files =
        insert name
          (record {
            field_name = name;
            path = record { len = length w.content; digest = decoder.sha256_hex w.content };
            size = w.size;
            sha256 = decoder.sha256_hex w.hashed;
          })
          st.files;
    total_artifact_bytes = w.total;
  }

  abbrev pub read_file : String → List (Received Bytes) → MultipartState → Result MultipartState
  read_file name chunks st =
      if is_some (get name st.files)
      then err (bad_request ("duplicate multipart file field '" <> name <> "'"))
      else if leb policy.max_platforms (length st.files)
      then err (bad_request "multipart body contains too many artifact fields")
      else (read_chunks policy name chunks
            (record { content = []; hashed = []; size = 0; total = st.total_artifact_bytes })
          >>= λ w. ok (stage st name w))

  abbrev pub read_metadata_field : List (Received Bytes) → MultipartState → Result MultipartState
  read_metadata_field chunks st =
      if is_some st.metadata
      then err (bad_request "multipart field 'metadata' must occur exactly once")
      else (read_metadata policy chunks [] >>= λ bytes.
          parsed_metadata st bytes (decoder.parse_metadata bytes))

  abbrev pub read_named : Field → MultipartState → Option String → Result MultipartState
  read_named field st none = err (bad_request "all multipart fields must have a name")
  read_named field st (some name) =
      if str_eq name "metadata"
      then read_metadata_field field.chunks st
      else read_file name field.chunks st

  unfoldable pub read_field : Field → MultipartState → Result MultipartState
  read_field field st = read_named field st field.name

  unfoldable pub read_fields : List (Received Field) → MultipartState → Result MultipartState
  read_fields [] st = ok st
  read_fields (broken e ∷ fields) st = err (map_multipart_error e)
  read_fields (got field ∷ fields) st = read_field field st >>= λ st'. read_fields fields st'

  unfoldable pub read_release_multipart :
      List (Received Field) → Result (ReleaseUploadMetadata × Staged)
  unfolding read_fields
  read_release_multipart fields =
      read_fields fields (record { metadata = none; files = []; total_artifact_bytes = 0 })
      >>= λ st. staged_multipart st st.metadata
