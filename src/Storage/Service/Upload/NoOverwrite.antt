-- ===== src/Storage/Service/Upload/NoOverwrite.antt =====
-- Uploads that must not overwrite: those of visitors and of users with a shared folder.
use nexuscloud.Base.{
  ◌≡◌, refl, sym, ◌∙◌, ap, subst, ℕ, Bool, true, false, ◌⊎◌, inl, inr, Option, none, some, [], Str,
  if◌then◌else◌, str_eq, str_eq-eq, find_first, &&_eq_true,
}
use nexuscloud.Storage.Errors.{
  Result, ok, err, failed, destination_occupied, name_occupied_by_trash,
}
use nexuscloud.Storage.Model.{FileMeta, is_trashed}
use nexuscloud.Storage.Action.{attempt}
use nexuscloud.Storage.World.{Outside, Db, World, Settings, query, fault_of}
use nexuscloud.Storage.World.Yields.{
  Yields, Yields-lift, Yields-query, Yields-weaken, Yields-reject_if, Yields-bind, Yields-if,
  Returns, Returns-bind, Gives, Gives-bind, Returns-Gives, Returns-weaken, Yields-Returns,
  provider_for-Yields,
}
use nexuscloud.Storage.Names.{validate_name, normalize_parent_path}
use nexuscloud.Storage.Pools.{default_pool, get_pool_by_id, resolve_target_pool}
use nexuscloud.Storage.Files.{has_key, get_file_by_natural_key, upsert_file, or_file_not_found}
use nexuscloud.Storage.Directories.{
  get_directory_by_natural_key, dir_has_key, or_directory_not_found,
}
use nexuscloud.Storage.Service.Upload.{
  UploadInput, upload, check_no_overwrite, overwrite_verdict, reject_if_trash_occupies_name,
  found_trashed, found_trashed_dir,
}
use nexuscloud.Storage.Service.Isolation.Rows.{find_first-passes}

-- No active file has this key.
abbrev pub IsFree : Db → Str → Str → Str → Str → Type 0
IsFree d pool owner parent name =
    (f : FileMeta)
    → find_first (has_key pool owner parent name) d.files ≡ some f
    → is_trashed f ≡ true

module _ {Disk A : Type 0} {d : Db} where
  -- A lookup that may fail answers from the tables, or with the fault.
  pub attempt-query-Yields :
      (f : Db → Result A)
      → Yields {Disk = Disk} d (λ r. (r ≡ err failed) ⊎ (r ≡ f d)) (attempt (query f))
  unfolding attempt query
  attempt-query-Yields f = record {
    keeps = λ w h. h;
    gives = λ w h r e. answered (fault_of w.db_faults) (f w.db) (f d) r (ap f h) (ok_injective e);
  }
    where
      ok_injective : {x y : Result A} → ok x ≡ ok y → x ≡ y
      ok_injective k = cc

      answered :
          (b : Bool) (x y r : Result A)
          → x ≡ y
          → (if b then err failed else x) ≡ r
          → (r ≡ err failed) ⊎ (r ≡ y)
      answered true x y r q e = inl (sym e)
      answered false x y r q e = inr (sym e ∙ q)

module _ (o : Outside) (s : Settings) (d : Db) where
  check_no_overwrite-Yields :
      (pool owner parent name : Str)
      → Yields d
          (λ _. IsFree d pool owner parent name)
          (check_no_overwrite o s true pool owner parent name)
  unfolding check_no_overwrite get_file_by_natural_key
  check_no_overwrite-Yields pool owner parent name =
      Yields-bind _ _
        (attempt-query-Yields
          (λ x. or_file_not_found (find_first (has_key pool owner parent name) x.files)))
        (λ r q.
          Yields-weaken _ (λ _ v. free r (find_first (has_key pool owner parent name) d.files) q v)
            (Yields-lift (overwrite_verdict r)))
    where
      passed : (b : Bool) → (if b then ok tt else err destination_occupied) ≡ ok (tt {0}) → b ≡ true
      passed true v = refl
      passed false v = cc

      some_injective : {x y : FileMeta} → some x ≡ some y → x ≡ y
      some_injective k = cc

      free :
          (r : Result FileMeta) (row : Option FileMeta) {u : Unit {0}}
          → (r ≡ err failed) ⊎ (r ≡ or_file_not_found row)
          → overwrite_verdict r ≡ ok u
          → (f : FileMeta) → row ≡ some f
          → is_trashed f ≡ true
      free r row (inl q) v f e = absurd (refused (subst (λ x. overwrite_verdict x ≡ ok tt) q v))
        where
          refused : err failed ≡ ok (tt {0}) → ⊥
          refused k = cc
      free r none (inr q) v f e = cc
      free r (some g) (inr q) v f e =
          subst (λ x. is_trashed x ≡ true) (some_injective e)
            (passed (is_trashed g) (subst (λ x. overwrite_verdict x ≡ ok tt) q v))

  reject_if_trash_occupies_name-Yields :
      (pool owner parent name : Str)
      → Yields d (λ _. Unit) (reject_if_trash_occupies_name o s pool owner parent name)
  unfolding reject_if_trash_occupies_name get_file_by_natural_key get_directory_by_natural_key
  reject_if_trash_occupies_name-Yields pool owner parent name =
      Yields-bind _ _
        (attempt-query-Yields
          (λ x. or_file_not_found (find_first (has_key pool owner parent name) x.files)))
        (λ f _. Yields-bind _ _ (Yields-reject_if (found_trashed f) name_occupied_by_trash) (λ _ _.
          Yields-bind _ _
            (attempt-query-Yields (λ x.
              or_directory_not_found
                (find_first (dir_has_key pool owner parent name) x.directories)))
            (λ g _.
              Yields-weaken _ (λ _ _. tt)
                (Yields-reject_if (found_trashed_dir g) name_occupied_by_trash))))

  resolve_target_pool-Yields : (id : Str) → Yields d (λ _. Unit) (resolve_target_pool o id)
  unfolding resolve_target_pool default_pool get_pool_by_id
  resolve_target_pool-Yields id =
      Yields-if (str_eq id []) _ _ (λ _. Yields-weaken _ (λ _ _. tt) (Yields-query _))
        (λ _. Yields-weaken _ (λ _ _. tt) (Yields-query _))

-- The row that is read again has the key of the new one.
upsert_file-Returns :
    (o : Outside) (new : FileMeta)
    → Returns
        (λ m. has_key new.pool_id new.owner_id new.parent_path new.name m ≡ true)
        (upsert_file o new)
unfolding upsert_file get_file_by_natural_key
upsert_file-Returns o new = Returns-bind _ _ (λ _. Yields-Returns _ (λ d.
    Yields-weaken _ (λ m e. find_first-passes _ d.files m (found _ m e))
      (Yields-query (λ x.
        or_file_not_found
          (find_first (has_key new.pool_id new.owner_id new.parent_path new.name) x.files)))))
  where
    found : (r : Option FileMeta) (f : FileMeta) → or_file_not_found r ≡ ok f → r ≡ some f
    found none f h = cc
    found (some g) f h = cc

keyed :
    (pool owner parent name : Str) (f : FileMeta)
    → has_key pool owner parent name f ≡ true
    → (f.pool_id ≡ pool) × (f.owner_id ≡ owner) × (f.parent_path ≡ parent) × (f.name ≡ name)
unfolding has_key
keyed pool owner parent name f q =
    let a = &&_eq_true _ _ q in
    let b = &&_eq_true _ _ a.1 in
    let c = &&_eq_true _ _ b.1 in
    (str_eq-eq _ _ a.0, str_eq-eq _ _ b.0, str_eq-eq _ _ c.0, str_eq-eq _ _ c.1)

-- The row is at the place that the upload names, and no active file of the tables was there.
abbrev pub IsNewAt : Db → UploadInput → FileMeta → Type 0
IsNewAt d input m =
    (m.owner_id ≡ input.owner_id)
    × (m.parent_path ≡ normalize_parent_path input.parent_path)
    × (m.name ≡ input.name)
    × IsFree d m.pool_id m.owner_id m.parent_path m.name

new_at :
    (d : Db) (input : UploadInput) (pool : Str) (m : FileMeta)
    → IsFree d pool input.owner_id (normalize_parent_path input.parent_path) input.name
    → has_key pool input.owner_id (normalize_parent_path input.parent_path) input.name m ≡ true
    → IsNewAt d input m
new_at d input pool m free q =
    let (p, o, a, n) =
      keyed pool input.owner_id (normalize_parent_path input.parent_path) input.name m q in
    (o, a, n, rw (p, o, a, n) free)

-- An upload that must not overwrite and succeeds has put its file at a place where, in the tables
-- from before, there was no active file.
pub upload-IsNewAt :
    (o : Outside) (s : Settings) (now : ℕ) (input : UploadInput) (w : World o.Disk) (m : FileMeta)
    → input.no_overwrite ≡ true
    → (upload o s now input w).0 ≡ ok m
    → IsNewAt w.db input m
unfolding upload
upload-IsNewAt o s now input w m b h = (whole w.db).gives w refl m h
  where
    guard :
        (d : Db) (pool : Str)
        → Yields d
            (λ _. IsFree d pool input.owner_id (normalize_parent_path input.parent_path) input.name)
            (check_no_overwrite o s input.no_overwrite pool input.owner_id
              (normalize_parent_path input.parent_path)
              input.name)
    guard d pool = rw b (
        check_no_overwrite-Yields o s d pool input.owner_id
          (normalize_parent_path input.parent_path) input.name)

    whole : (d : Db) → Gives d (IsNewAt d input) (upload o s now input)
    whole d = Gives-bind _ _ (Yields-lift (validate_name input.name)) (λ _ _.
        Gives-bind _ _ (resolve_target_pool-Yields o s d input.pool_id) (λ pool _.
          Gives-bind _ _ (provider_for-Yields o pool.id) (λ _ _.
            Gives-bind _ _
              (reject_if_trash_occupies_name-Yields o s d pool.id input.owner_id
                (normalize_parent_path input.parent_path) input.name)
              (λ _ _. Gives-bind _ _ (guard d pool.id) (λ _ free. Returns-Gives _ (
                Returns-bind _ _ (λ staging_id. Returns-bind _ _ (λ written. Returns-bind _ _ (λ _.
                  Returns-bind _ _ (λ id.
                    Returns-weaken _ (λ x q. new_at d input pool.id x free q)
                      (upsert_file-Returns o _)))))))))))
