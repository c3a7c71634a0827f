-- ===== src/Config/Validation.antt =====
-- The validation of src/config/mod.rs. The checks stand in the code's order.
use update_delivery_system.Prelude.{
  ℕ, String, Bool, true, false, not, ◌&&◌, ◌||◌, ◌==◌, Option, none, some, is_some, unwrap_or,
  length, all, leb, ltb, str_eq, if◌then◌else◌,
}
use update_delivery_system.Prelude.Text.{◌<>◌, is_empty, trim, strip_prefix, as_bytes}
use update_delivery_system.Prelude.BTreeMap.{get}
use update_delivery_system.Prelude.BTreeMap.Keys.{text_ord}
use update_delivery_system.Errors.{Result, ok, err, config, ◌>>=◌, ◌>>◌}
use update_delivery_system.Storage.{require}
use update_delivery_system.Config.Address.{is_wildcard}
use update_delivery_system.Stats.Files.{StatsConfig}
use update_delivery_system.Config.{
  ServerMode, fleet, single_node, TlsMode, off, files, acme, TlsConfig, FleetApiConfig,
  UploadConfig, LoggingConfig, ServerConfig, policy,
}

-- `url::Url`; `host` is the answer of `host_str`, which has brackets around an IPv6 address.
pub record Url : Type 0 where
  pub scheme : String
  pub host : Option String
  pub path : String
  pub query : Option String
  pub fragment : Option String

-- The file system, and `Url::parse`.
pub record Environment : Type 0 where
  pub file_exists : String → Bool
  pub parse_url : String → Option Url
  pub url_error : String → String

-- A value other than `false` fails with the text.
abbrev pub fail_if : Bool → String → Result (Unit {0})
fail_if b message = require (not b) (err (config message))

-- `is_ascii_hexdigit` and not `is_ascii_uppercase`.
abbrev pub is_lowercase_hex : ℕ → Bool
is_lowercase_hex b = (leb 48 b && leb b 57) || (leb 97 b && leb b 102)

abbrev pub is_digest : Option String → Bool
is_digest none = false
is_digest (some digest) = length (as_bytes digest) == 128 && all is_lowercase_hex (as_bytes digest)

unfoldable pub valid_sha512_verifier : String → Bool
valid_sha512_verifier value = is_digest (strip_prefix "sha512:" value)

unfoldable pub identity_checks : ServerConfig → Result (Unit {0})
identity_checks c =
    fail_if (is_empty (trim c.public_base_url)) "public_base_url must not be empty"
    >> fail_if (not (valid_sha512_verifier c.owner_token_verifier))
        "owner_token_verifier must use the format sha512:<128 lowercase hex characters>"
    >> fail_if (length c.channels == 0) "at least one channel must be configured"

abbrev pub is_fleet : ServerMode → Bool
is_fleet fleet = true
is_fleet single_node = false

abbrev pub fleet_api_matches : ServerMode → Option FleetApiConfig → Result (Unit {0})
fleet_api_matches fleet none = err (config "fleet_api is required in fleet mode")
fleet_api_matches single_node (some api) =
    err (config "fleet_api is not allowed in single-node mode")
fleet_api_matches _ _ = ok tt

unfoldable pub mode_checks : ServerConfig → Result (Unit {0})
mode_checks c =
    fail_if (is_fleet c.mode && ltb (length (as_bytes (unwrap_or c.cluster_token ""))) 16)
      "cluster_token must contain at least 16 characters in fleet mode"
    >> fleet_api_matches c.mode c.fleet_api

module _ (env : Environment) where
  abbrev pub require_existing_file : Option String → String → Result (Unit {0})
  require_existing_file none name = err (config (name <> " is required"))
  require_existing_file (some path) name =
      require (env.file_exists path) (err (config (name <> " must point to an existing file")))

  abbrev pub validate_mode : TlsMode → TlsConfig → String → Result (Unit {0})
  validate_mode off tls name = ok tt
  validate_mode files tls name =
      require_existing_file tls.cert_path (name <> ".cert_path")
      >> require_existing_file tls.key_path (name <> ".key_path")
  validate_mode acme tls name =
      fail_if (length tls.acme_domains == 0 || not (is_some tls.acme_contact_email))
        (name <> " requires domains and contact email in ACME mode")

  unfoldable pub validate_tls : TlsConfig → String → Result (Unit {0})
  validate_tls tls name = validate_mode tls.mode tls name

  abbrev pub check_url : String → Option Url → Result (Unit {0})
  check_url value none =
      err (config ("fleet_api.fleet_base_url is invalid: " <> env.url_error value))
  check_url value (some url) =
      fail_if
        (not (str_eq url.scheme "http" || str_eq url.scheme "https")
          || not (is_some url.host)
          || is_some url.query
          || is_some url.fragment
          || not (str_eq url.path "/"))
        "fleet_api.fleet_base_url must be an absolute HTTP(S) URL without query, fragment, or path"
      >> fail_if (is_wildcard url.host) "fleet_api.fleet_base_url must not use a wildcard address"

  unfoldable pub validate_fleet_base_url : String → Result (Unit {0})
  validate_fleet_base_url value = check_url value (env.parse_url value)

  abbrev pub fleet_checks : Option FleetApiConfig → Result (Unit {0})
  fleet_checks none = ok tt
  fleet_checks (some api) =
      validate_tls api.tls "fleet_api.tls" >> validate_fleet_base_url api.fleet_base_url

  unfoldable pub listener_checks : ServerConfig → Result (Unit {0})
  listener_checks c =
      validate_tls c.public_api.tls "public_api.tls"
      >> validate_tls c.admin_api.tls "admin_api.tls"
      >> fleet_checks c.fleet_api

unfoldable pub logging_checks : LoggingConfig → Result (Unit {0})
logging_checks l =
    fail_if (is_empty (trim l.level)) "logging.level must not be empty"
    >> fail_if (l.file.enabled && l.file.max_size_mb == 0)
        "logging.file.max_size_mb must be greater than 0"

unfoldable pub upload_checks : UploadConfig → Result (Unit {0})
upload_checks u =
    fail_if
      (u.max_artifact_size_mb == 0
        || u.max_total_artifact_size_mb == 0
        || u.max_metadata_size_kb == 0
        || u.max_platforms == 0)
      "upload limits must be greater than zero"
    >> fail_if (ltb u.max_total_artifact_size_mb u.max_artifact_size_mb)
        "upload.max_artifact_size_mb must not exceed upload.max_total_artifact_size_mb"
    >> (policy u >>= λ p. ok tt)

unfoldable pub stats_checks : StatsConfig → Result (Unit {0})
stats_checks s =
    fail_if
      (s.queue_capacity == 0
        || s.max_pending_events == 0
        || s.rollup_trigger_events == 0
        || s.rollup_interval_seconds == 0)
      "stats limits and intervals must be greater than zero"
    >> fail_if (ltb s.max_pending_events s.rollup_trigger_events)
        "stats.rollup_trigger_events must not exceed stats.max_pending_events"

unfoldable pub validate : Environment → ServerConfig → Result (Unit {0})
validate env c =
    identity_checks c
    >> mode_checks c
    >> listener_checks env c
    >> logging_checks c.logging
    >> upload_checks c.upload
    >> stats_checks c.stats
    >> fail_if (c.shutdown.grace_period_seconds == 0)
        "shutdown.grace_period_seconds must be greater than zero"

unfoldable pub channel_is_allowed : ServerConfig → String → Bool
channel_is_allowed c channel = is_some (get channel c.channels)

abbrev with_mode : Bool → ServerConfig → ServerConfig
with_mode single_node_mode c = if single_node_mode then record c { mode = single_node } else c

-- `load` with the outcome of reading the file that `--config` names, and of parsing its text.
unfoldable pub load : Environment → Bool → Option (Result ServerConfig) → Result ServerConfig
load env single_node_mode none =
    err (
      config "server configuration is required; pass --config <path> or run 'uds server configure'")
load env single_node_mode (some text) =
    text >>= λ c. validate env (with_mode single_node_mode c) >> ok (with_mode single_node_mode c)
