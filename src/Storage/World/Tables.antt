-- ===== src/Storage/World/Tables.antt =====
-- Predicates on the tables of files and directories: the calls that touch neither keep them.
use nexuscloud.Base.{ℕ, ◌≡◌, refl, Bool, true, false, List, Str, if◌then◌else◌, select, not}
use nexuscloud.Storage.Errors.{Result, ok, err, failed}
use nexuscloud.Storage.Model.{FileMeta, Directory, FileVersion}
use nexuscloud.Storage.Action.Keeps.{Keeps, KeepsIf, keeps_rules}
use nexuscloud.Storage.World.{
  Outside, Db, World, query, execute, applied, fault_of, rest_of, on_disk, from_disk, fresh_id,
}
use nexuscloud.Storage.Pools.{
  get_pool_by_id, default_pool, cache_pool, is_cached, open_provider, provider_for,
  resolve_target_pool,
}
use nexuscloud.Storage.Versions.{
  of_file, with_versions, create_version, list_versions, get_version, latest_version_num,
  delete_version, delete_all_versions,
}

abbrev pub Tables : Type 1
Tables = List FileMeta → List Directory → Type 0

unfoldable pub On : {Disk : Type 0} → Tables → World Disk → Type 0
On D w = D w.db.files w.db.directories

module _ (o : Outside) (D : Tables) where
  pub query-On : {A : Type 0} (f : Db → Result A) → Keeps (On D) (query {Disk = o.Disk} f)
  unfolding query On
  query-On f = record { at = λ w h. h }

  pub on_disk-On : {A : Type 0} (f : o.Disk → Result A × o.Disk) → Keeps (On D) (on_disk o f)
  unfolding on_disk On
  on_disk-On f = record { at = λ w h. h }

  pub from_disk-On : {A : Type 0} (f : o.Disk → Result A) → Keeps (On D) (from_disk o f)
  unfolding from_disk On
  from_disk-On f = record { at = λ w h. h }

  pub fresh_id-On : Keeps (On D) (fresh_id o)
  unfolding fresh_id On
  fresh_id-On = record { at = λ w h. h }

  -- A statement keeps what it keeps of the tables; refused, it changes nothing.
  pub execute-On :
      (R : Tables) (f : Db → Result Db)
      → ((d d' : Db)
          → R d.files d.directories
          → D d.files d.directories
          → f d ≡ ok d'
          → D d'.files d'.directories)
      → KeepsIf (On R) (On D) (execute {Disk = o.Disk} f)
  unfolding execute On
  execute-On R f h = record {
    at = λ w r k. applied-On w (fault_of w.db_faults) (f w.db) k (λ d' e. h w.db d' r k e);
  }
    where
      applied-On :
          (w : World o.Disk) (b : Bool) (r : Result Db)
          → D w.db.files w.db.directories
          → ((d' : Db) → r ≡ ok d' → D d'.files d'.directories)
          → On D (applied w (rest_of w.db_faults) (if b then err failed else r)).1
      applied-On w true r k g = k
      applied-On w false (ok d') k g = g d' refl
      applied-On w false (err e) k g = k

  pub execute-Keeps :
      (f : Db → Result Db)
      → ((d d' : Db) → D d.files d.directories → f d ≡ ok d' → D d'.files d'.directories)
      → Keeps (On D) (execute {Disk = o.Disk} f)
  unfolding On
  execute-Keeps f h = record {
    at = λ w k. (execute-On (λ fs ds. Unit) f (λ d d' _ k' e. h d d' k' e)).at w tt k;
  }

  -- A statement on the versions.
  versions-On :
      (f : Db → Result (List FileVersion))
      → Keeps (On D) (execute {Disk = o.Disk} (λ d. with_versions d (f d)))
  unfolding execute On
  versions-On f = record { at = λ w k. applied-On w (fault_of w.db_faults) (f w.db) k }
    where
      applied-On :
          (w : World o.Disk) (b : Bool) (r : Result (List FileVersion))
          → D w.db.files w.db.directories
          → On D
              (applied w (rest_of w.db_faults) (if b then err failed else with_versions w.db r)).1
      applied-On w true r k = k
      applied-On w false (ok d') k = k
      applied-On w false (err e) k = k

  pub get_pool_by_id-On : (id : Str) → Keeps (On D) (get_pool_by_id o id)
  unfolding get_pool_by_id
  get_pool_by_id-On id = query-On _

  pub default_pool-On : Keeps (On D) (default_pool o)
  unfolding default_pool
  default_pool-On = query-On _

  pub cache_pool-On : (id : Str) → Keeps (On D) (cache_pool o id)
  unfolding cache_pool On
  cache_pool-On id = record { at = λ w h. h }

  pub is_cached-On : (id : Str) → Keeps (On D) (is_cached o id)
  unfolding is_cached
  is_cached-On id = record { at = λ w h. h }

  pub create_version-On : (v : FileVersion) → Keeps (On D) (create_version o v)
  unfolding create_version
  create_version-On v = versions-On _

  pub list_versions-On : (id : Str) → Keeps (On D) (list_versions o id)
  unfolding list_versions
  list_versions-On id = query-On _

  pub get_version-On : (id : Str) (n : ℕ) → Keeps (On D) (get_version o id n)
  unfolding get_version
  get_version-On id n = query-On _

  pub latest_version_num-On : (id : Str) → Keeps (On D) (latest_version_num o id)
  unfolding latest_version_num
  latest_version_num-On id = query-On _

  pub delete_version-On : (id : Str) → Keeps (On D) (delete_version o id)
  unfolding delete_version
  delete_version-On id = versions-On _

  pub delete_all_versions-On : (id : Str) → Keeps (On D) (delete_all_versions o id)
  unfolding delete_all_versions
  delete_all_versions-On id = versions-On (λ d. ok (select (λ v. not (of_file id v)) d.versions))

  pub open_provider-On : (id : Str) → Keeps (On D) (open_provider o id)
  unfolding open_provider
  open_provider-On id = search (keeps_rules, get_pool_by_id-On, cache_pool-On)

  pub provider_for-On : (id : Str) → Keeps (On D) (provider_for o id)
  unfolding provider_for
  provider_for-On id = search (keeps_rules, is_cached-On, open_provider-On)

  pub resolve_target_pool-On : (id : Str) → Keeps (On D) (resolve_target_pool o id)
  unfolding resolve_target_pool
  resolve_target_pool-On id = search (keeps_rules, default_pool-On, get_pool_by_id-On)
