-- ===== src/Config/Environment.antt =====
-- nexuscloud/internal/config/env.go: variables of the environment that override settings.
use nexuscloud.Base.{
  Bool, true, false, Option, none, some, List, [], ◌∷◌, Str, str, str_eq, if◌then◌else◌, any_of,
}
use nexuscloud.GoText.{Int64, parse_int}
use nexuscloud.GoText.Unicode.{trim_space}
use nexuscloud.GoPath.{split}
use nexuscloud.Config.Model.{Config}

-- `os.LookupEnv`
abbrev pub Environment : Type 0
Environment = Str → Option Str

-- An empty variable is as good as none.
abbrev pub unless_empty : Option Str → Option Str
unless_empty none = none
unless_empty (some []) = none
unless_empty (some (c ∷ s)) = some (c ∷ s)

-- `lookup`
unfoldable pub lookup : Environment → Str → Option Str
lookup env key = unless_empty (env key)

-- `strconv.ParseBool`
unfoldable pub parse_bool : Str → Option Bool
parse_bool v =
    if any_of (str_eq v) (str "1" ∷ str "t" ∷ str "T" ∷ str "true" ∷ str "TRUE" ∷ str "True" ∷ [])
    then some true
    else if any_of (str_eq v)
        (str "0" ∷ str "f" ∷ str "F" ∷ str "false" ∷ str "FALSE" ∷ str "False" ∷ [])
    then some false
    else none

abbrev pub parsed : {A : Type 0} → (Str → Option A) → Option Str → Option A
parsed f none = none
parsed f (some v) = f v

-- `lookupInt` and `lookupInt64`, on a host whose `int` has 64 bits
unfoldable pub lookup_int : Environment → Str → Option Int64
unfolding lookup parse_int
lookup_int env key = parsed parse_int (lookup env key)

-- `lookupBool`
unfoldable pub lookup_bool : Environment → Str → Option Bool
unfolding lookup parse_bool
lookup_bool env key = parsed parse_bool (lookup env key)

trimmed : List Str → List Str
unfolding trim_space
trimmed [] = []
trimmed (p ∷ ps) =
    let rest = trimmed ps in if str_eq (trim_space p) [] then rest else trim_space p ∷ rest

-- `splitAndTrim`
unfoldable pub split_and_trim : Str → List Str
unfolding trimmed split
split_and_trim v = trimmed (split b',' v)

-- `if v, ok := …; ok { … }`
abbrev pub when_given : {A : Type 0} → Option A → (A → Config → Config) → Config → Config
when_given none set c = c
when_given (some v) set c = set v c

-- One `if` of `applyEnvOverrides`: how the variable is read and which setting it overrides.
pub data Override : Type 0 where
  text : Str → (Str → Config → Config) → Override
  texts : Str → (List Str → Config → Config) → Override
  number : Str → (Int64 → Config → Config) → Override
  flag : Str → (Bool → Config → Config) → Override

unfoldable pub override : Environment → Override → Config → Config
unfolding lookup lookup_int lookup_bool split_and_trim
override env (text key set) c = when_given (lookup env key) set c
override env (texts key set) c = when_given (lookup env key) (λ v. set (split_and_trim v)) c
override env (number key set) c = when_given (lookup_int env key) set c
override env (flag key set) c = when_given (lookup_bool env key) set c

unfoldable pub override_all : Environment → List Override → Config → Config
unfolding override
override_all env [] c = c
override_all env (o ∷ os) c = override_all env os (override env o c)

-- The `if`s of `applyEnvOverrides`, in their order.
unfoldable pub overrides : List Override
overrides =
    text (str "NEXUSCLOUD_HOST") (λ v c. record c { server = record c.server { host = v } })
    ∷ number (str "NEXUSCLOUD_PORT") (λ v c. record c { server = record c.server { port = v } })
    ∷ text (str "NEXUSCLOUD_TLS_CERT_FILE")
        (λ v c. record c { server = record c.server { tls_cert_file = v } })
    ∷ text (str "NEXUSCLOUD_TLS_KEY_FILE")
        (λ v c. record c { server = record c.server { tls_key_file = v } })
    ∷ texts (str "NEXUSCLOUD_TRUSTED_PROXIES")
        (λ v c. record c { server = record c.server { trusted_proxies = v } })
    ∷ text (str "NEXUSCLOUD_DATA_DIR")
        (λ v c. record c { storage = record c.storage { data_dir = v } })
    ∷ text (str "NEXUSCLOUD_STORAGE_DIR")
        (λ v c. record c { storage = record c.storage { storage_dir = v } })
    ∷ text (str "NEXUSCLOUD_DATABASE_DIR")
        (λ v c. record c { storage = record c.storage { database_dir = v } })
    ∷ text (str "NEXUSCLOUD_CACHE_DIR")
        (λ v c. record c { storage = record c.storage { cache_dir = v } })
    ∷ text (str "NEXUSCLOUD_THUMBNAILS_DIR")
        (λ v c. record c { storage = record c.storage { thumbnails_dir = v } })
    ∷ text (str "NEXUSCLOUD_VERSIONS_DIR")
        (λ v c. record c { storage = record c.storage { versions_dir = v } })
    ∷ text (str "NEXUSCLOUD_TEMP_DIR")
        (λ v c. record c { storage = record c.storage { temp_dir = v } })
    ∷ text (str "NEXUSCLOUD_LOGS_DIR")
        (λ v c. record c { storage = record c.storage { logs_dir = v } })
    ∷ text (str "NEXUSCLOUD_BACKUPS_DIR")
        (λ v c. record c { storage = record c.storage { backups_dir = v } })
    ∷ text (str "NEXUSCLOUD_CONFIG_DIR")
        (λ v c. record c { storage = record c.storage { config_dir = v } })
    ∷ text (str "NEXUSCLOUD_DB_DRIVER")
        (λ v c. record c { database = record c.database { driver = v } })
    ∷ text (str "NEXUSCLOUD_DB_DSN") (λ v c. record c { database = record c.database { dsn = v } })
    ∷ flag (str "NEXUSCLOUD_API_ENABLED") (λ v c. record c { api = record c.api { enabled = v } })
    ∷ flag (str "NEXUSCLOUD_WEB_ENABLED") (λ v c. record c { web = record c.web { enabled = v } })
    ∷ flag (str "NEXUSCLOUD_CLIENT_UPDATES_ENABLED")
        (λ v c. record c { client_updates = record c.client_updates { enabled = v } })
    ∷ text (str "NEXUSCLOUD_CLIENT_UPDATES_GITHUB_REPO")
        (λ v c. record c { client_updates = record c.client_updates { github_repo = v } })
    ∷ texts (str "NEXUSCLOUD_CORS_ALLOWED_ORIGINS")
        (λ v c. record c { security = record c.security { cors_allowed_origins = v } })
    ∷ flag (str "NEXUSCLOUD_PUBLIC_REGISTRATION_ENABLED")
        (λ v c. record c { security = record c.security { public_registration_enabled = v } })
    ∷ flag (str "NEXUSCLOUD_WEBAUTHN_ENABLED") (λ v c. record c {
      security = record c.security { web_authn = record c.security.web_authn { enabled = v } };
    })
    ∷ text (str "NEXUSCLOUD_WEBAUTHN_RP_ID") (λ v c. record c {
      security = record c.security { web_authn = record c.security.web_authn { rp_id = v } };
    })
    ∷ text (str "NEXUSCLOUD_WEBAUTHN_RP_ORIGIN") (λ v c. record c {
      security = record c.security { web_authn = record c.security.web_authn { rp_origin = v } };
    })
    ∷ flag (str "NEXUSCLOUD_WEBDAV_ENABLED")
        (λ v c. record c { webdav = record c.webdav { enabled = v } })
    ∷ text (str "NEXUSCLOUD_WEBDAV_PATH")
        (λ v c. record c { webdav = record c.webdav { path = v } })
    ∷ flag (str "NEXUSCLOUD_WEBDAV_READ_ONLY")
        (λ v c. record c { webdav = record c.webdav { read_only = v } })
    ∷ number (str "NEXUSCLOUD_WEBDAV_MAX_UPLOAD_SIZE_BYTES")
        (λ v c. record c { webdav = record c.webdav { max_upload_size_bytes = v } })
    ∷ text (str "NEXUSCLOUD_LOG_LEVEL")
        (λ v c. record c { logging = record c.logging { level = v } })
    ∷ text (str "NEXUSCLOUD_LOG_FORMAT")
        (λ v c. record c { logging = record c.logging { format = v } })
    ∷ text (str "NEXUSCLOUD_LOG_OUTPUT")
        (λ v c. record c { logging = record c.logging { output = v } })
    ∷ []

-- `applyEnvOverrides`
unfoldable pub apply_env_overrides : Environment → Config → Config
unfolding override_all overrides
apply_env_overrides env c = override_all env overrides c
