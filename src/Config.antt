-- ===== src/Config.antt =====
-- src/config/mod.rs: the configuration of the server. A socket address is its text, as is a path.
pub mod Defaults
pub mod Address
pub mod Validation
pub mod Policy
pub mod Consistency
pub mod Listeners
pub mod Accepted
use update_delivery_system.Prelude.{ℕ, String, Bool, Option, List, ◌*◌, ltb, ◌^◌, if◌then◌else◌}
use update_delivery_system.Errors.{Result, ok, err, config, ◌>>=◌}
use update_delivery_system.Models.{UploadPolicy}
use update_delivery_system.Stats.Files.{StatsConfig}

pub data LogLevel : Type 0 where
  trace debug info warn error : LogLevel

pub data ServerMode : Type 0 where
  fleet single_node : ServerMode

pub data TlsMode : Type 0 where
  off files acme : TlsMode

pub record TlsConfig : Type 0 where
  pub mode : TlsMode
  pub cert_path : Option String
  pub key_path : Option String
  pub acme_domains : List String
  pub acme_contact_email : Option String
  pub acme_use_staging : Bool

pub record ListenerConfig : Type 0 where
  pub bind : String
  pub tls : TlsConfig

pub record FleetApiConfig : Type 0 where
  pub bind : String
  pub fleet_base_url : String
  pub tls : TlsConfig

pub record UploadConfig : Type 0 where
  pub max_artifact_size_mb : ℕ
  pub max_total_artifact_size_mb : ℕ
  pub max_metadata_size_kb : ℕ
  pub max_platforms : ℕ

pub record ShutdownConfig : Type 0 where
  pub grace_period_seconds : ℕ

pub record ClusterConfig : Type 0 where
  pub node_id_path : String
  pub broadcast_addr : String
  pub broadcast_interval_seconds : ℕ
  pub reconcile_interval_seconds : ℕ

pub data ClientIpLoggingMode : Type 0 where
  never audit_security always : ClientIpLoggingMode

pub data LoggingColorMode : Type 0 where
  auto always never : LoggingColorMode

pub record LoggingConsoleConfig : Type 0 where
  pub enabled : Bool
  pub color : LoggingColorMode

pub record LoggingFileConfig : Type 0 where
  pub enabled : Bool
  pub path : Option String
  pub max_size_mb : ℕ
  pub max_archived_files : ℕ

pub record LoggingAdminApiConfig : Type 0 where
  pub enabled : Bool

pub record LoggingConfig : Type 0 where
  pub level : String
  pub filter : String
  pub client_ip : ClientIpLoggingMode
  pub console : LoggingConsoleConfig
  pub file : LoggingFileConfig
  pub admin_api : LoggingAdminApiConfig

pub record ServerConfig : Type 0 where
  pub mode : ServerMode
  pub public_api : ListenerConfig
  pub admin_api : ListenerConfig
  pub fleet_api : Option FleetApiConfig
  pub public_base_url : String
  pub data_dir : String
  pub owner_token_verifier : String
  pub cluster_token : Option String
  pub channels : List (String × Unit {0})
  pub cluster : ClusterConfig
  pub logging : LoggingConfig
  pub upload : UploadConfig
  pub stats : StatsConfig
  pub shutdown : ShutdownConfig

-- `u64::checked_mul` with the error of its failure.
abbrev pub checked_mul : ℕ → ℕ → String → Result ℕ
checked_mul a b message = if ltb (a * b) (2 ^ 64) then ok (a * b) else err (config message)

unfoldable pub policy : UploadConfig → Result UploadPolicy
policy u =
    checked_mul u.max_artifact_size_mb 1048576 "upload.max_artifact_size_mb is too large" >>= λ a.
    checked_mul u.max_total_artifact_size_mb 1048576
      "upload.max_total_artifact_size_mb is too large"
    >>= λ t.
        checked_mul u.max_metadata_size_kb 1024 "upload.max_metadata_size_kb is too large" >>= λ m.
        ok (record {
          max_artifact_bytes = a;
          max_total_artifact_bytes = t;
          max_metadata_bytes = m;
          max_platforms = u.max_platforms;
        })
