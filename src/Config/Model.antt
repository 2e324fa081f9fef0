-- ===== src/Config/Model.antt =====
-- The records of nexuscloud/internal/config/config.go, and where a server keeps its data. Numbers that
-- may be negative are `Int64`.
use nexuscloud.Base.{ℕ, Bool, List, [], ◌∷◌, Str, str, str_eq, if◌then◌else◌}
use nexuscloud.GoText.{Int64}
use nexuscloud.GoPath.{path_join}

pub record GeneralConfig : Type 0 where
  pub name : Str
  pub language : Str
  pub timezone : Str

pub record ServerConfig : Type 0 where
  pub host : Str
  pub port : Int64
  pub tls_cert_file : Str
  pub tls_key_file : Str
  pub trusted_proxies : List Str

pub record DatabaseConfig : Type 0 where
  pub driver : Str
  pub dsn : Str

pub record StorageConfig : Type 0 where
  pub data_dir : Str
  pub storage_dir : Str
  pub database_dir : Str
  pub cache_dir : Str
  pub thumbnails_dir : Str
  pub versions_dir : Str
  pub temp_dir : Str
  pub logs_dir : Str
  pub backups_dir : Str
  pub config_dir : Str

pub record Argon2Config : Type 0 where
  pub memory_kib : ℕ
  pub iterations : ℕ
  pub parallelism : ℕ

pub record RateLimitConfig : Type 0 where
  pub login_per_minute : Int64
  pub api_per_minute : Int64
  pub public_link_per_minute : Int64
  pub webdav_per_minute : Int64

pub record WebAuthnConfig : Type 0 where
  pub enabled : Bool
  pub rp_id : Str
  pub rp_origin : Str

pub record SecurityConfig : Type 0 where
  pub session_ttl_hours : Int64
  pub argon2 : Argon2Config
  pub rate_limit : RateLimitConfig
  pub cors_allowed_origins : List Str
  pub public_registration_enabled : Bool
  pub web_authn : WebAuthnConfig

pub record TrashConfig : Type 0 where
  pub enabled : Bool
  pub retention_days : Int64
  pub max_total_size_bytes : Int64

pub record VersioningConfig : Type 0 where
  pub enabled : Bool
  pub max_versions_per_file : Int64
  pub max_version_age_days : Int64
  pub max_versions_total_size_bytes : Int64

pub record SharingConfig : Type 0 where
  pub enabled : Bool
  pub public_links_enabled : Bool

pub record BackupConfig : Type 0 where
  pub enabled : Bool
  pub interval_minutes : Int64
  pub retention_count : Int64
  pub retention_days : Int64
  pub incremental : Bool
  pub encrypt : Bool
  pub remote_destination : Str

pub record ClientUpdatesConfig : Type 0 where
  pub enabled : Bool
  pub github_repo : Str
  pub channel : Str

pub record WebDavConfig : Type 0 where
  pub enabled : Bool
  pub path : Str
  pub read_only : Bool
  pub max_upload_size_bytes : Int64

pub record ApiConfig : Type 0 where
  pub enabled : Bool

pub record WebConfig : Type 0 where
  pub enabled : Bool

pub record LoggingConfig : Type 0 where
  pub level : Str
  pub format : Str
  pub output : Str

pub record Config : Type 0 where
  pub config_version : Int64
  pub general : GeneralConfig
  pub server : ServerConfig
  pub database : DatabaseConfig
  pub storage : StorageConfig
  pub security : SecurityConfig
  pub trash : TrashConfig
  pub versioning : VersioningConfig
  pub sharing : SharingConfig
  pub backup : BackupConfig
  pub client_updates : ClientUpdatesConfig
  pub webdav : WebDavConfig
  pub api : ApiConfig
  pub web : WebConfig
  pub logging : LoggingConfig

-- `Config.area`
unfoldable pub area : Config → Str → Str → Str
area c override name =
    if str_eq override [] then path_join (c.storage.data_dir ∷ name ∷ []) else override

-- `Config.DefaultStorageDir`
unfoldable pub default_storage_dir : Config → Str
default_storage_dir c =
    if str_eq c.storage.storage_dir []
    then path_join (c.storage.data_dir ∷ str "storage" ∷ [])
    else c.storage.storage_dir

-- `Config.DatabaseDir`
unfoldable pub database_dir : Config → Str
unfolding area
database_dir c = area c c.storage.database_dir (str "database")

-- The directories of the server's own files: `DatabaseDir`, `CacheDir`, `ThumbnailsDir`,
-- `VersionsDir`, `TempDir`, `LogsDir`, `BackupsDir`, `ConfigDir`.
unfoldable pub areas : Config → List Str
unfolding area database_dir
areas c =
    database_dir c
    ∷ area c c.storage.cache_dir (str "cache")
    ∷ area c c.storage.thumbnails_dir (str "thumbnails")
    ∷ area c c.storage.versions_dir (str "versions")
    ∷ area c c.storage.temp_dir (str "tmp")
    ∷ area c c.storage.logs_dir (str "logs")
    ∷ area c c.storage.backups_dir (str "backups")
    ∷ area c c.storage.config_dir (str "config")
    ∷ []

-- `Config.SQLiteDSN`
unfoldable pub sqlite_dsn : Config → Str
unfolding database_dir
sqlite_dsn c =
    if str_eq c.database.dsn []
    then path_join (database_dir c ∷ str "nexuscloud.db" ∷ [])
    else c.database.dsn
