-- ===== src/Config/Validate.antt =====
-- `Validate` of nexuscloud/internal/config/validate.go. Its checks change nothing, so they are a list,
-- in the code's order, of which the first that fails is the answer.
pub mod Checks
pub mod WebDavPath
pub mod Mount
pub mod Areas
pub mod Bounds
use nexuscloud.Base.{
  ℕ, Bool, true, false, not, ◌&&◌, ◌||◌, Option, none, some, List, [], ◌∷◌, ◌++◌, Str, str, str_eq,
  has_prefix, if◌then◌else◌, any_of, ltb, ◌==◌,
}
use nexuscloud.GoText.{Int64, positive, negative}
use nexuscloud.GoPath.{slash, split, clean}
use nexuscloud.Storage.SafeJoin.{within}
use nexuscloud.Config.Model.{
  Config, StorageConfig, DatabaseConfig, ServerConfig, SecurityConfig, Argon2Config,
  RateLimitConfig, WebAuthnConfig, TrashConfig, VersioningConfig, BackupConfig, ClientUpdatesConfig,
  WebDavConfig, LoggingConfig, default_storage_dir, areas,
}

-- Why a configuration is refused.
pub data Invalid : Type 0 where
  port_out_of_range unknown_driver dsn_missing data_dir_empty : Invalid
  argon2_memory_low argon2_iterations_low argon2_parallelism_low : Invalid
  login_rate_low api_rate_low public_link_rate_low webdav_rate_low : Invalid
  wildcard_origin rp_id_empty rp_origin_empty rp_origin_insecure : Invalid
  unknown_level unknown_format tls_files_unpaired : Invalid
  trash_retention_low trash_size_negative : Invalid
  versions_low version_age_negative versions_size_negative : Invalid
  backup_interval_low retention_count_negative retention_days_negative remote_scheme : Invalid
  github_repo_malformed channel_empty : Invalid
  max_upload_negative path_malformed path_dotted path_reserved : Invalid
  area_in_storage : Invalid

-- `n < k`
abbrev pub int_lt : Int64 → ℕ → Bool
int_lt (positive n) k = ltb n k
int_lt (negative n) k = if n == 0 then ltb 0 k else true

-- `n > k`
abbrev pub int_gt : Int64 → ℕ → Bool
int_gt (positive n) k = ltb k n
int_gt (negative n) k = false

abbrev pub refuse_if : Bool → Invalid → Option Invalid
refuse_if true r = some r
refuse_if false r = none

unfoldable pub first_refusal : List (Option Invalid) → Option Invalid
first_refusal [] = none
first_refusal (some r ∷ checks) = some r
first_refusal (none ∷ checks) = first_refusal checks

-- `[A-Za-z0-9._~-]`
unfoldable pub is_path_char : ℕ → Bool
is_path_char c =
    (ltb 64 c && ltb c 91)
    || ((ltb 96 c && ltb c 123)
        || ((ltb 47 c && ltb c 58) || (c == b'.' || (c == b'_' || (c == b'~' || c == b'-')))))

-- The rest of a segment and the segments behind it: `begun` tells that the segment has a character.
unfoldable pub match_segments : Bool → Str → Bool
unfolding is_path_char
match_segments begun [] = begun
match_segments begun (c ∷ s) =
    let in_segment = match_segments true s in
    let next_segment = match_segments false s in
    if is_path_char c then in_segment else if begun && c == slash then next_segment else false

-- `webDAVPathPattern.MatchString`: `^/[A-Za-z0-9._~-]+(/[A-Za-z0-9._~-]+)*$`
unfoldable pub match_webdav_path : Str → Bool
unfolding match_segments
match_webdav_path [] = false
match_webdav_path (c ∷ s) = c == slash && match_segments false s

abbrev pub is_dots : Str → Bool
is_dots s = str_eq s (str ".") || str_eq s (str "..")

abbrev pub reserved_routes : List Str
reserved_routes = str "/api" ∷ str "/health" ∷ str "/ready" ∷ []

unfoldable pub webdav_path_checks : Str → List (Option Invalid)
unfolding match_webdav_path within
webdav_path_checks p =
    refuse_if (not (match_webdav_path p)) path_malformed
    ∷ refuse_if (any_of is_dots (split slash p)) path_dotted
    ∷ refuse_if (any_of (λ reserved. within reserved p) reserved_routes) path_reserved
    ∷ []

-- `validateWebDAVPath`
unfoldable pub validate_webdav_path : Str → Option Invalid
unfolding first_refusal webdav_path_checks
validate_webdav_path p = first_refusal (webdav_path_checks p)

-- `validateStorageAreas`, less the name of the directory it reports: Go visits them in no fixed order.
-- It compares the cleaned texts: a relative path is not made absolute.
unfoldable pub validate_storage_areas : Config → Option Invalid
unfolding within clean areas default_storage_dir
validate_storage_areas c =
    let user_root = clean (default_storage_dir c) in
    if str_eq c.storage.data_dir []
    then none
    else refuse_if (any_of (λ dir. within user_root (clean dir)) (areas c)) area_in_storage

-- `strings.Cut` at a single byte
unfoldable pub cut : ℕ → Str → Option (Str × Str)
cut sep [] = none
cut sep (c ∷ s) =
    let rest = cut sep s in
    if c == sep then some ([], s) else elim rest [ none ↦ none | some r ↦ some (c ∷ r.0, r.1) ]

-- `clientUpdates.githubRepo` names an owner and a repository.
unfoldable pub is_owner_and_repo : Str → Bool
unfolding cut
is_owner_and_repo s = elim (cut slash s) [
  | none ↦ false
  | some r ↦ not (str_eq r.0 []) && not (str_eq r.1 [])
]

abbrev pub one_of : Str → List Str → Bool
one_of s names = any_of (str_eq s) names

-- The checks of `Validate` on the server, the database, the passwords and the rates.
unfoldable pub server_checks : Config → List (Option Invalid)
server_checks c =
    let sec = c.security in
    refuse_if (int_lt c.server.port 1 || int_gt c.server.port 65535) port_out_of_range
    ∷ refuse_if (not (one_of c.database.driver (str "sqlite" ∷ str "postgres" ∷ str "mysql" ∷ [])))
        unknown_driver
    ∷ refuse_if (not (str_eq c.database.driver (str "sqlite")) && str_eq c.database.dsn [])
        dsn_missing
    ∷ refuse_if (str_eq c.storage.data_dir []) data_dir_empty
    ∷ refuse_if (ltb sec.argon2.memory_kib 8192) argon2_memory_low
    ∷ refuse_if (ltb sec.argon2.iterations 1) argon2_iterations_low
    ∷ refuse_if (ltb sec.argon2.parallelism 1) argon2_parallelism_low
    ∷ refuse_if (int_lt sec.rate_limit.login_per_minute 1) login_rate_low
    ∷ refuse_if (int_lt sec.rate_limit.api_per_minute 1) api_rate_low
    ∷ refuse_if (int_lt sec.rate_limit.public_link_per_minute 1) public_link_rate_low
    ∷ refuse_if (int_lt sec.rate_limit.webdav_per_minute 1) webdav_rate_low
    ∷ refuse_if (one_of (str "*") sec.cors_allowed_origins) wildcard_origin
    ∷ []

-- Those on passkeys, the log and TLS.
unfoldable pub login_checks : Config → List (Option Invalid)
login_checks c =
    let w = c.security.web_authn in
    refuse_if (w.enabled && str_eq w.rp_id []) rp_id_empty
    ∷ refuse_if (w.enabled && str_eq w.rp_origin []) rp_origin_empty
    ∷ refuse_if
        (w.enabled
          && (not (has_prefix w.rp_origin (str "https://"))
              && not (has_prefix w.rp_origin (str "http://localhost"))))
        rp_origin_insecure
    ∷ refuse_if
        (not (
          one_of c.logging.level
            (str "trace" ∷ str "debug" ∷ str "info" ∷ str "warn" ∷ str "error" ∷ str "fatal" ∷ [])))
        unknown_level
    ∷ refuse_if (not (one_of c.logging.format (str "text" ∷ str "json" ∷ []))) unknown_format
    ∷ refuse_if
        (if str_eq c.server.tls_cert_file []
          then not (str_eq c.server.tls_key_file [])
          else str_eq c.server.tls_key_file [])
        tls_files_unpaired
    ∷ []

-- Those on the trash, the versions and the backups.
unfoldable pub retention_checks : Config → List (Option Invalid)
retention_checks c =
    let v = c.versioning in
    let b = c.backup in
    refuse_if (c.trash.enabled && int_lt c.trash.retention_days 1) trash_retention_low
    ∷ refuse_if (int_lt c.trash.max_total_size_bytes 0) trash_size_negative
    ∷ refuse_if (v.enabled && int_lt v.max_versions_per_file 1) versions_low
    ∷ refuse_if (int_lt v.max_version_age_days 0) version_age_negative
    ∷ refuse_if (int_lt v.max_versions_total_size_bytes 0) versions_size_negative
    ∷ refuse_if (b.enabled && int_lt b.interval_minutes 1) backup_interval_low
    ∷ refuse_if (int_lt b.retention_count 0) retention_count_negative
    ∷ refuse_if (int_lt b.retention_days 0) retention_days_negative
    ∷ refuse_if
        (not (str_eq b.remote_destination [])
          && (not (has_prefix b.remote_destination (str "http://"))
              && not (has_prefix b.remote_destination (str "https://"))))
        remote_scheme
    ∷ []

-- Those on the clients' updates, WebDAV and the directories.
unfoldable pub service_checks : Config → List (Option Invalid)
unfolding is_owner_and_repo validate_webdav_path validate_storage_areas
service_checks c =
    let u = c.client_updates in
    refuse_if (u.enabled && not (is_owner_and_repo u.github_repo)) github_repo_malformed
    ∷ refuse_if (u.enabled && str_eq u.channel []) channel_empty
    ∷ refuse_if (int_lt c.webdav.max_upload_size_bytes 0) max_upload_negative
    ∷ (if c.webdav.enabled then validate_webdav_path c.webdav.path else none)
    ∷ validate_storage_areas c
    ∷ []

-- The checks of `Validate`, in its order.
unfoldable pub all_checks : Config → List (Option Invalid)
unfolding server_checks login_checks retention_checks service_checks
all_checks c = server_checks c ++ (login_checks c ++ (retention_checks c ++ service_checks c))

-- `Validate`: `none` accepts the configuration.
unfoldable pub validate : Config → Option Invalid
unfolding first_refusal all_checks
validate c = first_refusal (all_checks c)
