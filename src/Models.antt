-- ===== src/Models.antt =====
-- src/models.rs: the records that the storage keeps and the requests carry. A time is a natural number.
use update_delivery_system.Prelude.{ℕ, String, Bool, Option, List}

pub record UploadPlatformMetadata : Type 0 where
  pub file_field : String
  pub file_name : String
  pub signature : String

pub record ReleaseUploadMetadata : Type 0 where
  pub version : String
  pub pub_date : Option String
  pub notes : String
  pub platforms : List (String × UploadPlatformMetadata)

pub record PlatformArtifact : Type 0 where
  pub file_name : String
  pub signature : String
  pub size : ℕ
  pub sha256 : String

pub record ReleaseManifest : Type 0 where
  pub version : String
  pub pub_date : Option String
  pub notes : String
  pub withdrawn : Bool
  pub platforms : List (String × PlatformArtifact)
  pub updated_at : ℕ

pub record ReleaseListEntry : Type 0 where
  pub version : String
  pub pub_date : Option String
  pub withdrawn : Bool
  pub platforms : List String
  pub updated_at : ℕ

pub record TauriUpdateResponse : Type 0 where
  pub version : String
  pub url : String
  pub signature : String
  pub pub_date : Option String
  pub notes : String

pub record UploadPolicy : Type 0 where
  pub max_artifact_bytes : ℕ
  pub max_total_artifact_bytes : ℕ
  pub max_metadata_bytes : ℕ
  pub max_platforms : ℕ
