-- ===== src/Storage/World.antt =====
-- The state behind package `storage`: the tables of the database, the content store, and what the
-- service takes from outside the program.
pub mod Tables
pub mod Calls
pub mod Yields
use nexuscloud.Base.{
  ℕ, zero, suc, ◌+◌, Bool, true, false, Option, none, some, List, [], ◌∷◌, Str, if◌then◌else◌, ltb,
  str_eq, any_of, find_first, ◌==◌,
}
use nexuscloud.Storage.Errors.{Error, Result, ok, err, failed, pool_not_found, unsupported_pool}
use nexuscloud.Storage.Model.{FileMeta, Directory, FileVersion, Share, Pool}
use nexuscloud.Storage.Action.{Action, pure, raise, lift, reject_if, ◌>>=◌, ◌>>◌}
use nexuscloud.Sharing.Reader.{Reader}

-- The content store behind `storage.Provider`, one for each pool, with the names under which
-- `file_service.go` calls it, and the libraries for identifiers, media types and passwords. Each
-- call may fail, and nothing is assumed of what it does.
pub record Outside : Type 1 where
  pub Disk : Type 0
  pub write : Str → Str → Reader → Disk → Result (ℕ × Str) × Disk
  pub read : Str → Str → Disk → Result (List ℕ)
  pub remove : Str → Str → Disk → Result (Unit {0}) × Disk
  pub mkdir_all : Str → Str → Disk → Result (Unit {0}) × Disk
  pub move : Str → Str → Str → Disk → Result (Unit {0}) × Disk
  pub open_pool : Str → Result (Unit {0})
  pub new_id : ℕ → Str
  pub mime_of : Str → Str
  pub new_token : ℕ → Result Str
  pub hash_token : Str → Str
  pub hash_password : Str → Result Str
  pub verify_password : Str → Str → Bool

-- The tables; `memberships` is `user_groups`, pairs of a user and a group.
pub record Db : Type 0 where
  pub files : List FileMeta
  pub directories : List Directory
  pub versions : List FileVersion
  pub shares : List Share
  pub pools : List Pool
  pub memberships : List (Str × Str)

-- `db_faults` tells of each coming database call whether it fails; after its end none does.
-- `opened` holds the pools whose provider is cached, `next_id` counts the identifiers given out.
pub record World (Disk : Type 0) : Type 0 where
  pub db : Db
  pub disk : Disk
  pub db_faults : List Bool
  pub opened : List Str
  pub next_id : ℕ

-- The settings of `FileService`; 0 switches a limit off.
pub record Settings : Type 0 where
  pub trash_enabled : Bool
  pub versioning_enabled : Bool
  pub max_versions_per_file : ℕ
  pub max_version_age_days : ℕ
  pub max_versions_total_size_bytes : ℕ
  pub sharing_enabled : Bool
  pub public_links_enabled : Bool

-- One call of the database: it fails, or reads from the tables.
unfoldable pub fault_of : List Bool → Bool
fault_of [] = false
fault_of (b ∷ bs) = b

unfoldable pub rest_of : List Bool → List Bool
rest_of [] = []
rest_of (b ∷ bs) = bs

module _ {Disk A : Type 0} where
  unfoldable pub query : (Db → Result A) → Action (World Disk) A
  unfolding fault_of rest_of
  query f w = (
    (if fault_of w.db_faults then err failed else f w.db),
    record w { db_faults = rest_of w.db_faults },
  )

module _ {Disk : Type 0} where
  abbrev applied : World Disk → List Bool → Result Db → Result (Unit {0}) × World Disk
  applied w bs (ok d) = (ok tt, record w { db_faults = bs; db = d })
  applied w bs (err e) = (err e, record w { db_faults = bs })

  -- A statement that changes the tables, or is refused and changes nothing.
  unfoldable pub execute : (Db → Result Db) → Action (World Disk) (Unit {0})
  unfolding fault_of rest_of
  execute f w =
      applied w (rest_of w.db_faults) (if fault_of w.db_faults then err failed else f w.db)

module _ (o : Outside) where
  abbrev pub Service : Type 0 → Type 0
  Service A = Action (World o.Disk) A

  -- A call of the content store that changes it.
  unfoldable pub on_disk : {A : Type 0} → (o.Disk → Result A × o.Disk) → Service A
  on_disk f w = let (r, d) = f w.disk in (r, record w { disk = d })

  unfoldable pub from_disk : {A : Type 0} → (o.Disk → Result A) → Service A
  from_disk f w = (f w.disk, w)

  -- `idgen.New`
  unfoldable pub fresh_id : Service Str
  fresh_id w = (ok (o.new_id w.next_id), record w { next_id = w.next_id + 1 })

  -- `idgen.Token`
  unfoldable pub fresh_token : Service Str
  fresh_token w = (o.new_token w.next_id, record w { next_id = w.next_id + 1 })
