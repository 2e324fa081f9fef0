-- ===== src/Config/Defaults.antt =====
-- `Defaults` of nexuscloud/internal/config/config.go, on a host that is not Windows.
use nexuscloud.Base.{true, false, [], str, Str}
use nexuscloud.GoText.{positive}
use nexuscloud.Config.Model.{Config}

-- `defaultDataDir`
abbrev pub default_data_dir : Str
default_data_dir = str "/var/lib/nexuscloud"

unfoldable pub defaults : Config
defaults = record {
  config_version = positive 1;
  general = record { name = str "NexusCloud"; language = str "es"; timezone = str "UTC" };
  server = record {
    host = str "0.0.0.0";
    port = positive 8080;
    tls_cert_file = [];
    tls_key_file = [];
    trusted_proxies = [];
  };
  database = record { driver = str "sqlite"; dsn = [] };
  storage = record {
    data_dir = default_data_dir;
    storage_dir = [];
    database_dir = [];
    cache_dir = [];
    thumbnails_dir = [];
    versions_dir = [];
    temp_dir = [];
    logs_dir = [];
    backups_dir = [];
    config_dir = [];
  };
  security = record {
    session_ttl_hours = positive 720;
    argon2 = record { memory_kib = 65536; iterations = 3; parallelism = 4 };
    rate_limit = record {
      login_per_minute = positive 5;
      api_per_minute = positive 300;
      public_link_per_minute = positive 20;
      webdav_per_minute = positive 1200;
    };
    cors_allowed_origins = [];
    public_registration_enabled = false;
    web_authn = record { enabled = false; rp_id = []; rp_origin = [] };
  };
  trash = record {
    enabled = true;
    retention_days = positive 30;
    max_total_size_bytes = positive 0;
  };
  versioning = record {
    enabled = true;
    max_versions_per_file = positive 10;
    max_version_age_days = positive 0;
    max_versions_total_size_bytes = positive 0;
  };
  sharing = record { enabled = true; public_links_enabled = false };
  backup = record {
    enabled = false;
    interval_minutes = positive 1440;
    retention_count = positive 0;
    retention_days = positive 0;
    incremental = false;
    encrypt = false;
    remote_destination = [];
  };
  client_updates = record { enabled = false; github_repo = []; channel = str "win" };
  webdav = record {
    enabled = false;
    path = str "/webdav";
    read_only = false;
    max_upload_size_bytes = positive 0;
  };
  api = record { enabled = true };
  web = record { enabled = false };
  logging = record { level = str "info"; format = str "text"; output = str "stdout" };
}
