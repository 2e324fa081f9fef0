-- ===== src/Config/Load/Accepted.antt =====
-- What `Load` gives back.
use nexuscloud.Base.{
  ◌≡◌, refl, ap, inl, inr, false, none, some, has_prefix, List, [], ◌∷◌, Str, Bool-cases,
  Option-cases, arith,
}
use nexuscloud.GoPath.{path_join}
use nexuscloud.Config.Model.{Config}
use nexuscloud.Config.Defaults.{defaults}
use nexuscloud.Config.Environment.{
  Environment, Override, override, override_all, overrides, lookup, lookup_int, lookup_bool,
  apply_env_overrides,
}
use nexuscloud.Config.Validate.{validate, int_gt}
use nexuscloud.Config.Validate.Bounds.{AtMost, int_gt-AtMost}
use nexuscloud.Config.Load.{
  ConfigHost, absent, Loaded, loaded, refused, current_config_version, is_zero, migrate_schema,
  read_settings, restore_data_dir, finish_load, load,
}

loaded_injective : {a b : Config} → loaded a ≡ loaded b → a ≡ b
loaded_injective {a = a} e = ap (λ l. elim l [ loaded c ↦ c | refused _ ↦ a ]) e

some_injective : {a b : Config} → some a ≡ some b → a ≡ b
some_injective e = cc

-- A version that the server reads.
abbrev pub IsCurrent : Config → Type 0
IsCurrent c = (is_zero c.config_version ≡ false) × AtMost current_config_version c.config_version

migrate_schema-IsCurrent : (c m : Config) → migrate_schema c ≡ some m → IsCurrent m
unfolding migrate_schema
migrate_schema-IsCurrent c m h = elim (Bool-cases (is_zero c.config_version)) [
  | inl y ↦ rw (← some_injective (rw y at h)) (refl, ground arith)
  | inr n ↦ elim (Bool-cases (int_gt c.config_version current_config_version)) [
    | inl newer ↦ cc (rw (n, newer) at h)
    | inr known ↦
        rw (← some_injective (rw (n, known) at h))
          (n, int_gt-AtMost c.config_version current_config_version known)
  ]
]

-- What the last steps make of a configuration, when they accept it.
finish_load-accepts :
    (c out : Config) → finish_load c ≡ loaded out → (validate out ≡ none) × IsCurrent out
unfolding finish_load
finish_load-accepts c out h = elim (Option-cases (migrate_schema c)) [
  | inl stop ↦ cc (rw (finish_load, stop) at h)
  | inr (m, migrated) ↦ elim (Option-cases (validate m)) [
    | inr (r, invalid) ↦ cc (rw (finish_load, migrated, invalid) at h)
    | inl valid ↦
        rw (← loaded_injective (rw (finish_load, migrated, valid) at h))
          (valid, migrate_schema-IsCurrent c m migrated)
  ]
]

settings-accepts :
    (env : Environment) (settings : Loaded) (c : Config)
    → elim settings [
      | refused e ↦ refused e
      | loaded s ↦ finish_load (restore_data_dir (apply_env_overrides env s))
    ]
      ≡ loaded c
    → (validate c ≡ none) × IsCurrent c
settings-accepts env (loaded s) c e =
    finish_load-accepts (restore_data_dir (apply_env_overrides env s)) c e
settings-accepts env (refused r) c e = cc

-- `Load` gives a configuration only if `Validate` accepts it as it is given and its version is set
-- and one that the server reads.
pub load-accepts :
    (h : ConfigHost) (path : Str) (c : Config)
    → load h path ≡ loaded c
    → (validate c ≡ none) × IsCurrent c
unfolding load
load-accepts h path c e = settings-accepts h.environment (read_settings h path) c e

-- Without a variable nothing is overridden.
override_all-unset :
    (env : Environment) (os : List Override) (c : Config)
    → ((key : Str) → lookup env key ≡ none)
    → override_all env os c ≡ c
unfolding override_all override lookup_int lookup_bool
override_all-unset env [] c unset = refl
override_all-unset env (Override.text key set ∷ os) c unset =
    rw (unset key) (override_all-unset env os c unset)
override_all-unset env (Override.texts key set ∷ os) c unset =
    rw (unset key) (override_all-unset env os c unset)
override_all-unset env (Override.number key set ∷ os) c unset =
    rw (unset key) (override_all-unset env os c unset)
override_all-unset env (Override.flag key set ∷ os) c unset =
    rw (unset key) (override_all-unset env os c unset)

apply_env_overrides-unset :
    (env : Environment) (c : Config)
    → ((key : Str) → lookup env key ≡ none)
    → apply_env_overrides env c ≡ c
unfolding apply_env_overrides
apply_env_overrides-unset env c unset = override_all-unset env overrides c unset

read_settings-absent :
    (h : ConfigHost) (path : Str)
    → h.read_file path ≡ absent
    → read_settings h path ≡ loaded defaults
unfolding read_settings
read_settings-absent h [] e = refl
read_settings-absent h (c ∷ path) e = rw (read_settings, e) refl

finish_defaults : finish_load (restore_data_dir defaults) ≡ loaded defaults
unfolding finish_load restore_data_dir defaults path_join has_prefix
finish_defaults = refl

-- Without a file at the path, and with no variable of the environment set, `Load` gives `Defaults`.
pub load-absent :
    (h : ConfigHost) (path : Str)
    → h.read_file path ≡ absent
    → ((key : Str) → lookup h.environment key ≡ none)
    → load h path ≡ loaded defaults
unfolding load
load-absent h path e unset =
    rw (load, read_settings-absent h path e, apply_env_overrides-unset h.environment defaults unset)
      finish_defaults
