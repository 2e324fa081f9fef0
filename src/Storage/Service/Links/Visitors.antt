-- ===== src/Storage/Service/Links/Visitors.antt =====
-- What a visitor gets through a link.
use nexuscloud.Base.{
  ◌≡◌, refl, sym, subst, ℕ, Bool, true, false, not, ◌⊎◌, inl, inr, Option, none, some, List, [],
  Str, if◌then◌else◌, str_eq, str_eq-eq, find_first, &&_eq_true,
}
use nexuscloud.GoPath.{dir_of, base_of}
use nexuscloud.Storage.Errors.{
  ok, err, public_links_disabled, share_download_not_allowed, share_exhausted,
  share_password_required, share_password_incorrect, invalid_path, pool_not_found,
}
use nexuscloud.Storage.Model.{FileMeta, Directory, Share, Pool}
use nexuscloud.Storage.Action.{reject_if}
use nexuscloud.Storage.World.{Outside, Db, World, Settings}
use nexuscloud.Storage.World.Yields.{
  Yields, Yields-pure, Yields-if, Yields-lift, Yields-query, Yields-weaken, Yields-reject_if,
  Yields-bind, Returns-bind, Gives, Gives-bind, Yields-Returns, Returns-Gives,
}
use nexuscloud.Storage.Names.{resolve_shared_path}
use nexuscloud.Storage.Pools.{default_pool, first_active, or_not_found}
use nexuscloud.Storage.Files.{
  has_id, has_key, get_file_by_id, get_file_by_natural_key, or_file_not_found,
}
use nexuscloud.Storage.Directories.{dir_has_id, get_directory_by_id, or_directory_not_found}
use nexuscloud.Storage.Shares.{
  share_has_token, get_share_by_token_hash, or_share_not_found, increment_download_count,
}
use nexuscloud.Storage.Table.Members.{find_first-IsRow}
use nexuscloud.Storage.Service.Access.Granted.{read_content-Yields}
use nexuscloud.Storage.Service.Links.{
  resolve_public_share, resolve_public_share_for_access, verify_share_password, linked_file,
  download_via_public_share, names_nothing, or_error,
}
use nexuscloud.Sharing.Lifecycle.{
  check_lifecycle, check_lifecycle_iff, IsOpen, has_password, is_directory_share,
}

-- The share is the table's for this token, it is open, and it has no password or the given one.
abbrev pub Admits : Outside → Settings → Db → ℕ → Str → Str → Share → Type 0
Admits o s d now token password share =
    (s.public_links_enabled ≡ true)
    × (find_first (share_has_token (o.hash_token token)) d.shares ≡ some share)
    × IsOpen now share
    × ((share.password_hash ≡ []) ⊎ (o.verify_password password share.password_hash ≡ true))

-- The file is the one that is shared, or lies in the shared folder, at a path that
-- `resolve_shared_path` allows.
abbrev pub IsShared : Db → Share → FileMeta → Type 0
IsShared d share f =
    (find_first (has_id share.file_id) d.files ≡ some f)
    ⊎ ((dir : Directory) × (find_first (dir_has_id share.directory_id) d.directories ≡ some dir)
        × (f.owner_id ≡ dir.owner_id)
        × ((sub : Str) × (resolve_shared_path dir sub ≡ some f.parent_path)))

or_share_not_found-eq_ok : (r : Option Share) (x : Share) → or_share_not_found r ≡ ok x → r ≡ some x
or_share_not_found-eq_ok none x h = cc
or_share_not_found-eq_ok (some y) x h = cc

or_file_not_found-eq_ok :
    (r : Option FileMeta) (x : FileMeta) → or_file_not_found r ≡ ok x → r ≡ some x
or_file_not_found-eq_ok none x h = cc
or_file_not_found-eq_ok (some y) x h = cc

or_directory_not_found-eq_ok :
    (r : Option Directory) (x : Directory) → or_directory_not_found r ≡ ok x → r ≡ some x
or_directory_not_found-eq_ok none x h = cc
or_directory_not_found-eq_ok (some y) x h = cc

negated : (b : Bool) → not b ≡ false → b ≡ true
negated true k = refl
negated false k = cc

keyed :
    (pool owner parent name : Str) (f : FileMeta)
    → has_key pool owner parent name f ≡ true
    → (f.owner_id ≡ owner) × (f.parent_path ≡ parent)
unfolding has_key
keyed pool owner parent name f q =
    let a = &&_eq_true _ _ (&&_eq_true _ _ q).1 in
    (str_eq-eq _ _ a.0, str_eq-eq _ _ (&&_eq_true _ _ a.1).0)

verified :
    (no_password empty right : Bool)
    → (if not (not no_password)
        then ok (tt {0})
        else if empty
        then err share_password_required
        else if right
        then ok tt
        else err share_password_incorrect)
      ≡ ok tt
    → (no_password ≡ true) ⊎ (right ≡ true)
verified true empty right h = inl refl
verified false true right h = cc
verified false false true h = inr refl
verified false false false h = cc

module _ (o : Outside) (s : Settings) (d : Db) (now : ℕ) where
  verify_share_password-eq_ok :
      (share : Share) (password : Str)
      → verify_share_password o s share password ≡ ok tt
      → (share.password_hash ≡ []) ⊎ (o.verify_password password share.password_hash ≡ true)
  unfolding verify_share_password has_password
  verify_share_password-eq_ok share password h =
      elim (verified (str_eq share.password_hash []) (str_eq password [])
        (o.verify_password password share.password_hash) h) [
          | inl e ↦ inl (str_eq-eq _ _ e)
          | inr e ↦ inr e
        ]

  resolve_public_share-Yields :
      (token : Str)
      → Yields d
          (λ x.
            (s.public_links_enabled ≡ true)
            × (find_first (share_has_token (o.hash_token token)) d.shares ≡ some x))
          (resolve_public_share o s token)
  unfolding resolve_public_share get_share_by_token_hash
  resolve_public_share-Yields token =
      Yields-bind _ _ (Yields-reject_if (not s.public_links_enabled) public_links_disabled) (λ _ on.
        Yields-weaken _ (λ x e. (negated _ on, or_share_not_found-eq_ok _ x e))
          (Yields-query
            (λ x. or_share_not_found (find_first (share_has_token (o.hash_token token)) x.shares))))

  resolve_public_share_for_access-Yields :
      (token password : Str)
      → Yields d
          (Admits o s d now token password)
          (resolve_public_share_for_access o s now token password)
  unfolding resolve_public_share_for_access
  resolve_public_share_for_access-Yields token password =
      Yields-bind _ _ (resolve_public_share-Yields token) (λ share q.
        Yields-bind _ _ (Yields-lift (check_lifecycle now share)) (λ u l.
          Yields-bind _ _ (Yields-lift (verify_share_password o s share password)) (λ v p.
            Yields-pure share (
              q.0,
              q.1,
              (check_lifecycle_iff now share).0 l,
              verify_share_password-eq_ok share password p,
            ))))

  linked_file-Yields :
      (share : Share) (sub_path : Str)
      → Yields d (IsShared d share) (linked_file o s share sub_path)
  unfolding linked_file get_file_by_id get_directory_by_id default_pool get_file_by_natural_key
  linked_file-Yields share sub_path =
      Yields-if (not (is_directory_share share)) _ _
        (λ _.
          Yields-weaken _ (λ f e. inl (or_file_not_found-eq_ok _ f e))
            (Yields-query (λ x. or_file_not_found (find_first (has_id share.file_id) x.files))))
        (λ _.
          Yields-bind _ _
            (Yields-query (λ x.
              or_directory_not_found (find_first (dir_has_id share.directory_id) x.directories)))
            (λ dir e.
              Yields-bind _ _ (Yields-reject_if (names_nothing o s sub_path) invalid_path) (λ _ _.
                Yields-bind _ _
                  (Yields-lift
                    (or_error o s (err invalid_path) (resolve_shared_path dir (dir_of sub_path))))
                  (λ parent r.
                    Yields-bind _ _
                      (Yields-query (λ x. or_not_found pool_not_found (first_active x.pools)))
                      (λ (pool : Pool) _.
                        Yields-weaken _ (λ f k. inr (within dir parent pool f e r k))
                          (Yields-query (λ x. or_file_not_found (
                            find_first (has_key pool.id dir.owner_id parent (base_of sub_path))
                              x.files))))))))
    where
      within :
          (dir : Directory) (parent : Str) (pool : Pool) (f : FileMeta)
          → or_directory_not_found (find_first (dir_has_id share.directory_id) d.directories)
            ≡ ok dir
          → or_error o s (err invalid_path) (resolve_shared_path dir (dir_of sub_path)) ≡ ok parent
          → or_file_not_found
              (find_first (has_key pool.id dir.owner_id parent (base_of sub_path)) d.files)
            ≡ ok f
          → (dir : Directory) × (find_first (dir_has_id share.directory_id) d.directories
              ≡ some dir)
            × (f.owner_id ≡ dir.owner_id)
            × ((sub : Str) × (resolve_shared_path dir sub ≡ some f.parent_path))
      within dir parent pool f e r k =
          let (own, place) =
            keyed pool.id dir.owner_id parent (base_of sub_path) f
              (find_first-IsRow (has_key pool.id dir.owner_id parent (base_of sub_path)) d.files f
                (or_file_not_found-eq_ok _ f k)).1 in
          (
            dir,
            or_directory_not_found-eq_ok _ dir e,
            own,
            (
              dir_of sub_path,
              subst (λ p. resolve_shared_path dir (dir_of sub_path) ≡ some p) (sym place)
                  (allowed _ parent r),
            ),
          )
        where
          allowed :
              (r : Option Str) (p : Str) → or_error o s (err invalid_path) r ≡ ok p → r ≡ some p
          allowed none p h = cc
          allowed (some q) p h = cc

-- A visitor who downloads through a link has a token of a share of the table that is open and whose
-- password, if it has one, is the given one; the share permits downloads, and the file is the
-- shared one or lies in the shared folder, at a path that `resolve_shared_path` allows.
pub download_via_public_share-authorized :
    (o : Outside) (s : Settings) (now : ℕ) (token password sub_path : Str) (w : World o.Disk)
    (f : FileMeta) (content : List ℕ)
    → (download_via_public_share o s now token password sub_path w).0 ≡ ok (f, content)
    → (share : Share) × Admits o s w.db now token password share
      × (share.can_download ≡ true)
      × IsShared w.db share f
unfolding download_via_public_share
download_via_public_share-authorized o s now token password sub_path w f content h =
    (whole w.db).gives w refl (f, content) h
  where
    Q : Db → FileMeta × List ℕ → Type 0
    Q d r =
        (share : Share) × Admits o s d now token password share
        × (share.can_download ≡ true)
        × IsShared d share r.0

    whole : (d : Db) → Gives d (Q d) (download_via_public_share o s now token password sub_path)
    whole d =
        Gives-bind _ _ (resolve_public_share_for_access-Yields o s d now token password) (λ share a.
          Gives-bind _ _ (Yields-reject_if (not share.can_download) share_download_not_allowed)
            (λ _ c. Gives-bind _ _ (linked_file-Yields o s d now share sub_path) (λ meta l.
              Returns-Gives _ (
                Returns-bind (increment_download_count o share.id) _ (λ counted.
                  Returns-bind (reject_if (not counted) share_exhausted) _ (λ _.
                    Yields-Returns _ (λ d'.
                      Yields-weaken _
                        (λ r q.
                          subst
                            (λ g.
                              (share : Share) × Admits o s d now token password share
                              × (share.can_download ≡ true)
                              × IsShared d share g)
                            (sym q) (share, a, negated _ c, l))
                        (read_content-Yields o s d' now token meta))))))))
