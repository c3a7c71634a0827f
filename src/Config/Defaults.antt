-- ===== src/Config/Defaults.antt =====
-- The defaults of src/config/mod.rs.
use update_delivery_system.Prelude.{String, true, false, none, List, [], ◌∷◌}
use update_delivery_system.Prelude.Text.{◌<>◌}
use update_delivery_system.Prelude.BTreeMap.Keys.{text_ord}
use update_delivery_system.Stats.Files.{StatsConfig}
use update_delivery_system.Config.{
  ServerMode, fleet, single_node, TlsMode, off, TlsConfig, UploadConfig, ShutdownConfig,
  ClusterConfig, ClientIpLoggingMode, LoggingColorMode, LoggingConsoleConfig, LoggingFileConfig,
  LoggingAdminApiConfig, LoggingConfig, ServerConfig,
}

abbrev pub default_mode : ServerMode
default_mode = fleet

abbrev pub default_tls_mode : TlsMode
default_tls_mode = off

abbrev pub default_public_bind : String
default_public_bind = "127.0.0.1:8080"

abbrev pub default_admin_bind : String
default_admin_bind = "127.0.0.1:8081"

abbrev pub default_channels : List (String × Unit {0})
default_channels = ("beta", tt) ∷ ("experimental", tt) ∷ ("mature", tt) ∷ ("stable", tt) ∷ []

abbrev pub default_tls : TlsConfig
default_tls = record {
  mode = default_tls_mode;
  cert_path = none;
  key_path = none;
  acme_domains = [];
  acme_contact_email = none;
  acme_use_staging = false;
}

abbrev pub default_cluster : ClusterConfig
default_cluster = record {
  node_id_path = "node-id";
  broadcast_addr = "255.255.255.255:44231";
  broadcast_interval_seconds = 30;
  reconcile_interval_seconds = 300;
}

abbrev pub default_console : LoggingConsoleConfig
default_console = record { enabled = true; color = LoggingColorMode.auto }

abbrev pub default_file : LoggingFileConfig
default_file = record { enabled = true; path = none; max_size_mb = 100; max_archived_files = 5 }

abbrev pub default_admin_api : LoggingAdminApiConfig
default_admin_api = record { enabled = true }

abbrev pub default_logging : LoggingConfig
default_logging = record {
  level = "info";
  filter = "";
  client_ip = ClientIpLoggingMode.audit_security;
  console = default_console;
  file = default_file;
  admin_api = default_admin_api;
}

abbrev pub default_upload : UploadConfig
default_upload = record {
  max_artifact_size_mb = 512;
  max_total_artifact_size_mb = 2048;
  max_metadata_size_kb = 1024;
  max_platforms = 32;
}

abbrev pub default_stats : StatsConfig
default_stats = record {
  queue_capacity = 8192;
  max_pending_events = 100000;
  rollup_trigger_events = 10000;
  rollup_interval_seconds = 900;
}

abbrev pub default_shutdown : ShutdownConfig
default_shutdown = record { grace_period_seconds = 300 }

unfoldable pub single_node_template : ServerConfig
single_node_template = record {
  mode = single_node;
  public_api = record { bind = default_public_bind; tls = default_tls };
  admin_api = record { bind = default_admin_bind; tls = default_tls };
  fleet_api = none;
  public_base_url = "https://updates.example.org";
  data_dir = "/var/lib/uds";
  owner_token_verifier = "";
  cluster_token = none;
  channels = default_channels;
  cluster = default_cluster;
  logging = default_logging;
  upload = default_upload;
  stats = default_stats;
  shutdown = default_shutdown;
}

-- The join of two paths of which the second is relative.
unfoldable pub production_single_node_default : ServerConfig
unfolding single_node_template
production_single_node_default = record single_node_template {
  cluster = record default_cluster {
    node_id_path = single_node_template.data_dir <> "/" <> "node-id";
  };
}
