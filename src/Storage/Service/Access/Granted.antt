-- ===== src/Storage/Service/Access/Granted.antt =====
-- Who reads what is shared: every reader is the owner, or holds a share.
use nexuscloud.Base.{
  ◌≡◌, refl, sym, ◌∙◌, ap, subst, ℕ, Bool, true, false, not, ◌⊎◌, inl, inr, Option, none, some,
  List, [], ◌∷◌, ◌++◌, append_assoc, append-nil, Str, str_eq, str_eq-eq, find_first, any_of,
  &&_eq_true,
}
use mathlib.Core.List.{reverse, reverse-append, reverse-reverse}
use nexuscloud.GoPath.{slash, split, join, trim_slashes}
use nexuscloud.Storage.Errors.{Result, ok, err, forbidden, pool_not_found}
use nexuscloud.Storage.Model.{FileMeta, Directory, Share, Pool}
use nexuscloud.Storage.World.{Outside, Db, World, Settings}
use nexuscloud.Storage.World.Yields.{
  Yields, Yields-pure, Yields-if, Yields-query, Yields-attempt, Yields-weaken, Yields-reject_if,
  Yields-bind, provider_for-Yields, from_disk-Yields,
}
use nexuscloud.Storage.Pools.{default_pool, first_active, or_not_found}
use nexuscloud.Storage.Files.{has_id, get_file_by_id, or_file_not_found}
use nexuscloud.Storage.Directories.{
  dir_has_key, get_directory_by_natural_key, or_directory_not_found,
}
use nexuscloud.Storage.Shares.{opens_file, opens_directory, has_file_access, has_directory_access}
use nexuscloud.Storage.Table.Members.{IsRow, any_of-IsRow, find_first-IsRow}
use nexuscloud.Storage.Service.Access.Opens.{
  LetsDownload, opens_file-LetsDownload, opens_directory-LetsDownload,
}
use nexuscloud.Storage.Service.Access.{
  visit_access, visit_found, walk_up, walk_ancestor_directories,
  has_share_access_to_ancestor_directories, has_share_access_to_file, check_file_access,
  read_content, download,
}

-- The path leads through the folder: its place is made of the first elements of the path.
pub record LiesOn (path : Str) (dir : Directory) : Type 0 where
  pub above : List Str
  pub below : List Str
  pub elements : split slash (trim_slashes path) ≡ above ++ (dir.name ∷ below)
  pub place : dir.parent_path ≡ slash ∷ join slash above

-- A share of the tables lets the user download the file: it is of the file itself, or of a folder
-- of the file's owner through which its path leads.
abbrev pub FileGrant : Db → ℕ → Str → FileMeta → Type 0
FileGrant d now requester f =
    (s : Share) × IsRow s d.shares
    × LetsDownload d.memberships now requester s
    × ((s.file_id ≡ f.id)
        ⊎ ((dir : Directory) × IsRow dir d.directories
            × (dir.owner_id ≡ f.owner_id)
            × LiesOn f.parent_path dir
            × (s.directory_id ≡ dir.id)))

-- A share lets the user download what is in a folder of the owner on the path.
abbrev pub FolderGrant : Db → ℕ → Str → Str → Str → Type 0
FolderGrant d now requester owner path =
    (s : Share) × IsRow s d.shares
    × LetsDownload d.memberships now requester s
    × ((dir : Directory) × IsRow dir d.directories
        × (dir.owner_id ≡ owner)
        × LiesOn path dir
        × (s.directory_id ≡ dir.id))

or_directory_not_found-eq_ok :
    (r : Option Directory) (x : Directory) → or_directory_not_found r ≡ ok x → r ≡ some x
or_directory_not_found-eq_ok none x h = cc
or_directory_not_found-eq_ok (some y) x h = cc

keyed :
    (pool owner parent name : Str) (x : Directory)
    → dir_has_key pool owner parent name x ≡ true
    → (x.owner_id ≡ owner) × (x.parent_path ≡ parent) × (x.name ≡ name)
unfolding dir_has_key
keyed pool owner parent name x q =
    let a = (&&_eq_true _ _ q).1 in
    let b = (&&_eq_true _ _ a).1 in
    let c = &&_eq_true _ _ b in
    (str_eq-eq _ _ (&&_eq_true _ _ a).0, str_eq-eq _ _ c.0, str_eq-eq _ _ c.1)

module _ (o : Outside) (d : Db) (now : ℕ) (requester owner path : Str) where
  -- What the walk has found so far.
  abbrev Found : Bool → Type 0
  Found b = b ≡ true → FolderGrant d now requester owner path

  visit_access-Yields :
      (s : Settings) (found : Bool) (dir : Directory)
      → IsRow dir d.directories
      → dir.owner_id ≡ owner
      → LiesOn path dir
      → Yields d (λ v. Found v.0) (visit_access o s now requester found dir)
  unfolding visit_access has_directory_access
  visit_access-Yields s found dir row q l = Yields-bind _ _ (Yields-query _) (λ here e.
      Yields-pure _ (λ t.
        let (sh, r, p) =
          any_of-IsRow (opens_directory d.memberships now requester dir.id) d.shares
            (ok_injective e ∙ t) in
        let (of_dir, lets) = opens_directory-LetsDownload d.memberships now requester sh dir.id p in
        (sh, r, lets, (dir, row, q, l, of_dir))))
    where
      ok_injective : {x y : Bool} → ok x ≡ ok y → x ≡ y
      ok_injective k = cc

  -- The loop at the elements `reverse names` of the path, with `below` passed already.
  walk_up-Yields :
      (s : Settings) (pool : Str) (found : Bool) (names below : List Str)
      → split slash (trim_slashes path) ≡ reverse names ++ below
      → Found found
      → Yields d Found (walk_up o (visit_access o s now requester) pool owner found names)
  unfolding walk_up visit_found get_directory_by_natural_key
  walk_up-Yields s pool found [] below e h = Yields-pure found h
  walk_up-Yields s pool found (name ∷ above) below e h =
      Yields-bind _ _ (Yields-attempt _ (Yields-query _)) (λ r k.
        Yields-bind _ _ (visited r k) (λ v f.
          Yields-if v.1 _ _ (λ _. Yields-pure v.0 f)
            (λ _. walk_up-Yields s pool v.0 above (name ∷ below) passed f)))
    where
      passed : split slash (trim_slashes path) ≡ reverse above ++ (name ∷ below)
      passed =
          e
          ∙ ap (λ l. l ++ below) (reverse-append (name ∷ []) above)
          ∙ append_assoc (reverse above) (name ∷ []) below

      parent : Str
      parent = slash ∷ join slash (reverse above)

      visited :
          (r : Result Directory)
          → ((x : Directory)
              → r ≡ ok x
              → or_directory_not_found
                  (find_first (dir_has_key pool owner parent name) d.directories)
                ≡ ok x)
          → Yields d (λ v. Found v.0) (visit_found o (visit_access o s now requester) found r)
      visited (err x) k = Yields-pure (found, false) h
      visited (ok x) k =
          let (row, q) =
            find_first-IsRow (dir_has_key pool owner parent name) d.directories x
              (or_directory_not_found-eq_ok _ x (k x refl)) in
          let (own, place, nm) = keyed pool owner parent name x q in
          visit_access-Yields s found x row own (record {
            above = reverse above;
            below = below;
            elements =
                subst (λ n. split slash (trim_slashes path) ≡ reverse above ++ (n ∷ below)) (sym nm)
                  passed;
            place = place;
          })

  ancestors-Yields :
      (s : Settings)
      → Yields d Found (has_share_access_to_ancestor_directories o s now requester owner path)
  unfolding has_share_access_to_ancestor_directories walk_ancestor_directories default_pool
  ancestors-Yields s =
      Yields-if (str_eq (trim_slashes path) []) _ _ (λ _. Yields-pure false (λ e. cc))
        (λ _.
          Yields-bind _ _ (Yields-query (λ x. or_not_found pool_not_found (first_active x.pools)))
            (λ (pool : Pool) _.
              walk_up-Yields s pool.id false (reverse (split slash (trim_slashes path))) []
                (sym (append-nil _ ∙ reverse-reverse (split slash (trim_slashes path)))) (λ e. cc)))

module _ (o : Outside) (s : Settings) (d : Db) (now : ℕ) (requester : Str) where
  has_share_access_to_file-Yields :
      (f : FileMeta)
      → Yields d
          (λ b. b ≡ true → (s.sharing_enabled ≡ true) × FileGrant d now requester f)
          (has_share_access_to_file o s now requester f)
  unfolding has_share_access_to_file has_file_access
  has_share_access_to_file-Yields f =
      Yields-if (not s.sharing_enabled) _ _ (λ _. Yields-pure false (λ e. cc))
        (λ off.
          Yields-bind _ _
            (Yields-query (λ x. ok (any_of (opens_file x.memberships now requester f.id) x.shares)))
            (λ direct e.
              Yields-if direct _ _
                (λ t.
                  Yields-pure true
                    (λ _. (is_on off, by_file (any_of-IsRow _ d.shares (ok_injective e ∙ t)))))
                (λ _.
                  Yields-weaken _ (λ b g t. (is_on off, by_folder (g t)))
                    (ancestors-Yields o d now requester f.owner_id f.parent_path s))))
    where
      is_on : not s.sharing_enabled ≡ false → s.sharing_enabled ≡ true
      is_on h = negated s.sharing_enabled h
        where
          negated : (b : Bool) → not b ≡ false → b ≡ true
          negated true k = refl
          negated false k = cc

      ok_injective : {x y : Bool} → ok x ≡ ok y → x ≡ y
      ok_injective k = cc

      by_file :
          ((x : Share) × IsRow x d.shares × (opens_file d.memberships now requester f.id x ≡ true))
          → FileGrant d now requester f
      by_file (x, r, p) =
          let (of_file, lets) = opens_file-LetsDownload d.memberships now requester x f.id p in
          (x, r, lets, inl of_file)

      by_folder : FolderGrant d now requester f.owner_id f.parent_path → FileGrant d now requester f
      by_folder (x, r, l, p) = (x, r, l, inr p)

  check_file_access-Yields :
      (f : FileMeta)
      → Yields d
          (λ _. (f.owner_id ≡ requester) ⊎ (s.sharing_enabled ≡ true) × FileGrant d now requester f)
          (check_file_access o s now requester f)
  unfolding check_file_access
  check_file_access-Yields f =
      Yields-if (str_eq f.owner_id requester) _ _ (λ e. Yields-pure tt (inl (str_eq-eq _ _ e)))
        (λ _. Yields-bind _ _ (has_share_access_to_file-Yields f) (λ b g.
          Yields-weaken _ (λ _ k. inr (g (negated b k))) (Yields-reject_if (not b) forbidden)))
    where
      negated : (b : Bool) → not b ≡ false → b ≡ true
      negated true k = refl
      negated false k = cc

  pub read_content-Yields : (f : FileMeta) → Yields d (λ r. r.0 ≡ f) (read_content o s f)
  unfolding read_content
  read_content-Yields f =
      Yields-bind _ _ (provider_for-Yields o f.pool_id)
        (λ _ _. Yields-bind _ _ (from_disk-Yields o _) (λ content _. Yields-pure (f, content) refl))

  pub download-Yields :
      (id : Str)
      → Yields d
          (λ r.
            (find_first (has_id id) d.files ≡ some r.0)
            × ((r.0.owner_id ≡ requester)
                ⊎ (s.sharing_enabled ≡ true) × FileGrant d now requester r.0))
          (download o s now requester id)
  unfolding download get_file_by_id
  download-Yields id =
      Yields-bind _ _ (Yields-query (λ x. or_file_not_found (find_first (has_id id) x.files)))
        (λ f e. Yields-bind _ _ (check_file_access-Yields f) (λ _ g.
          Yields-weaken _ (λ r q. subst Allowed (sym q) (found _ f e, g)) (read_content-Yields f)))
    where
      Allowed : FileMeta → Type 0
      Allowed f =
          (find_first (has_id id) d.files ≡ some f)
          × ((f.owner_id ≡ requester) ⊎ (s.sharing_enabled ≡ true) × FileGrant d now requester f)

      found : (r : Option FileMeta) (f : FileMeta) → or_file_not_found r ≡ ok f → r ≡ some f
      found none f h = cc
      found (some g) f h = cc

-- A download that succeeds gives a file of the table with the identifier that was asked for, and the
-- requester is its owner, or sharing is switched on and a share that is not revoked and whose time of
-- expiry, if it has one, is not in an earlier second lets the requester, or a group of theirs, download
-- it: a share of the file itself, or of one of its owner's folders through which the file's path leads.
pub download-authorized :
    (o : Outside) (s : Settings) (now : ℕ) (requester id : Str) (w : World o.Disk) (f : FileMeta)
    (content : List ℕ)
    → (download o s now requester id w).0 ≡ ok (f, content)
    → (find_first (has_id id) w.db.files ≡ some f)
      × ((f.owner_id ≡ requester) ⊎ (s.sharing_enabled ≡ true) × FileGrant w.db now requester f)
download-authorized o s now requester id w f content h =
    (download-Yields o s w.db now requester id).gives w refl (f, content) h
