-- ===== src/Config/Load.antt =====
-- `Load` and `migrateSchema` of nexuscloud/internal/config/config.go. The file's bytes come from
-- `os.ReadFile`; what they set is `yaml.Unmarshal`'s business, which is not part of the repository.
pub mod Accepted
use nexuscloud.Base.{
  ℕ, Bool, true, false, Option, none, some, List, [], ◌∷◌, Str, str_eq, if◌then◌else◌, ◌==◌,
}
use nexuscloud.GoText.{Int64, positive, negative}
use nexuscloud.Config.Model.{Config, StorageConfig}
use nexuscloud.Config.Defaults.{defaults, default_data_dir}
use nexuscloud.Config.Environment.{Environment, apply_env_overrides}
use nexuscloud.Config.Validate.{Invalid, int_gt, validate}

-- What `os.ReadFile` answers.
pub data FileRead : Type 0 where
  contents : Str → FileRead
  absent unreadable : FileRead

-- The host, as far as `Load` asks it: its files, the YAML decoder and the environment.
pub record ConfigHost : Type 0 where
  pub read_file : Str → FileRead
  pub unmarshal : Str → Config → Option Config
  pub environment : Environment

pub data LoadError : Type 0 where
  unparsable read_failed version_unsupported : LoadError
  invalid : Invalid → LoadError

pub data Loaded : Type 0 where
  loaded : Config → Loaded
  refused : LoadError → Loaded

-- `CurrentConfigVersion`
abbrev pub current_config_version : ℕ
current_config_version = 1

abbrev pub is_zero : Int64 → Bool
is_zero (positive n) = n == 0
is_zero (negative n) = n == 0

-- `migrateSchema`: `none` is its error.
unfoldable pub migrate_schema : Config → Option Config
migrate_schema c =
    if is_zero c.config_version
    then some (record c { config_version = positive current_config_version })
    else if int_gt c.config_version current_config_version
    then none
    else some c

-- The settings of the defaults and the file.
unfoldable pub read_settings : ConfigHost → Str → Loaded
unfolding defaults
read_settings h [] = loaded defaults
read_settings h (c ∷ path) = elim (h.read_file (c ∷ path)) [
  | contents bytes ↦ elim (h.unmarshal bytes defaults) [
    | none ↦ refused unparsable
    | some cfg ↦ loaded cfg
  ]
  | absent ↦ loaded defaults
  | unreadable ↦ refused read_failed
]

-- An empty `storage.dataDir` stands for the default of the operating system.
unfoldable pub restore_data_dir : Config → Config
restore_data_dir c =
    if str_eq c.storage.data_dir []
    then record c { storage = record c.storage { data_dir = default_data_dir } }
    else c

-- The last steps of `Load`: the migration and the checks.
unfoldable pub finish_load : Config → Loaded
unfolding migrate_schema validate
finish_load c = elim (migrate_schema c) [
  | none ↦ refused version_unsupported
  | some m ↦ elim (validate m) [ none ↦ loaded m | some r ↦ refused (invalid r) ]
]

-- `Load`
unfoldable pub load : ConfigHost → Str → Loaded
unfolding read_settings apply_env_overrides restore_data_dir finish_load
load h path = elim (read_settings h path) [
  | refused e ↦ refused e
  | loaded c ↦ finish_load (restore_data_dir (apply_env_overrides h.environment c))
]
