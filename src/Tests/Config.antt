-- ===== src/Tests/Config.antt =====
-- The theorems on the configuration at concrete inputs.
use nexuscloud.Base.{
  ◌≡◌, ◌↔◌, refl, true, false, none, some, List, [], ◌∷◌, Str, str, str_eq, has_byte, has_prefix,
  any_of, if◌then◌else◌,
}
use nexuscloud.GoText.{positive}
use nexuscloud.GoPath.{split, clean, path_join}
use nexuscloud.Storage.SafeJoin.{absolute, within, safe_join}
use nexuscloud.Config.Model.{Config}
use nexuscloud.Config.Defaults.{defaults}
use nexuscloud.Config.Environment.{lookup}
use nexuscloud.Config.Validate.{match_webdav_path, reserved_routes, validate_webdav_path, validate}
use nexuscloud.Config.Validate.WebDavPath.{IsMountPath, match_webdav_path_iff}
use nexuscloud.Config.Validate.Mount.{validate_webdav_path-disjoint, validate_webdav_path-clean}
use nexuscloud.Config.Validate.Bounds.{AreInRange, validate-AreInRange}
use nexuscloud.Config.Load.{ConfigHost, loaded, contents, absent, load}
use nexuscloud.Config.Load.Accepted.{IsCurrent, load-accepts, load-absent}

abbrev mount : Str
mount = str "/dav/files"

mount_accepted : validate_webdav_path mount ≡ none
unfolding validate_webdav_path within has_prefix split str_eq
mount_accepted = refl

match_webdav_path_iff_example : (match_webdav_path mount ≡ true) ↔ IsMountPath mount
match_webdav_path_iff_example = match_webdav_path_iff mount

validate_webdav_path-disjoint_example :
    any_of (λ reserved. within reserved (str "/dav/files/api")) reserved_routes ≡ false
unfolding within has_prefix str_eq
validate_webdav_path-disjoint_example =
    validate_webdav_path-disjoint mount mount_accepted (str "/dav/files/api") refl

validate_webdav_path-clean_example : clean mount ≡ mount
validate_webdav_path-clean_example = validate_webdav_path-clean mount mount_accepted

defaults_valid : validate defaults ≡ none
unfolding validate defaults path_join has_prefix
defaults_valid = refl

abbrev storage_root : List Str
storage_root = str "var" ∷ str "lib" ∷ str "nexuscloud" ∷ str "storage" ∷ []

abbrev reached : Str
reached = str "/var/lib/nexuscloud/storage/database"

-- A directory given as a relative path is compared as a text: made absolute in the working directory
-- `/var/lib/nexuscloud`, this one lies among the users' files.
relative_database_accepted :
    validate
      (record defaults { storage = record defaults.storage { database_dir = str "storage/db" } })
    ≡ none
unfolding validate defaults path_join has_prefix within
relative_database_accepted = refl

relative_database_reached :
    absolute (some (str "/var/lib/nexuscloud")) (str "storage/db")
    ≡ safe_join (some (str "/var/lib/nexuscloud")) (str "/var/lib/nexuscloud/storage") (str "/db")
unfolding safe_join path_join has_byte has_prefix absolute within
relative_database_reached = refl

-- With the users' files under `/`, every directory of the server lies among them, and yet the check
-- passes: no clean path begins with `//`.
root_storage_accepted :
    validate (record defaults { storage = record defaults.storage { storage_dir = str "/" } })
    ≡ none
unfolding validate defaults path_join has_prefix
root_storage_accepted = refl

validate-AreInRange_example : AreInRange defaults
validate-AreInRange_example = validate-AreInRange defaults defaults_valid

-- A file that sets the port and an environment that turns WebDAV on.
abbrev host : ConfigHost
host = record {
  read_file = λ path. contents path;
  unmarshal = λ bytes c. some (record c { server = record c.server { port = positive 9000 } });
  environment =
      λ key. if str_eq key (str "NEXUSCLOUD_WEBDAV_ENABLED") then some (str "true") else none;
}

abbrev settings : Config
settings = record defaults {
  server = record defaults.server { port = positive 9000 };
  webdav = record defaults.webdav { enabled = true };
}

load-accepts_example : (validate settings ≡ none) × IsCurrent settings
unfolding load defaults path_join has_prefix
load-accepts_example = load-accepts host (str "nexuscloud.yaml") settings refl

abbrev bare : ConfigHost
bare = record { read_file = λ path. absent; unmarshal = λ bytes c. none; environment = λ key. none }

load-absent_example : load bare (str "nexuscloud.yaml") ≡ loaded defaults
unfolding lookup
load-absent_example = load-absent bare (str "nexuscloud.yaml") refl (λ key. refl)
