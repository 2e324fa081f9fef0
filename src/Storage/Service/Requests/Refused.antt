-- ===== src/Storage/Service/Requests/Refused.antt =====
-- Requests that only an owner may make.
use nexuscloud.Base.{◌≡◌, refl, sym, ap, ℕ, Option, none, some, Str, subst, ◌⊎◌, inl, inr}
use nexuscloud.Storage.Model.{FileMeta, Directory}
use nexuscloud.Storage.Action.{Action, pure, ◌>>=◌}
use nexuscloud.Storage.World.{Outside, World, Settings, Service}
use nexuscloud.Storage.World.Calls.{bind-err}
use nexuscloud.Storage.Service.History.{
  owned_file, list_file_versions, download_version, restore_version,
}
use nexuscloud.Storage.Service.Trash.{delete, permanently_delete_file, restore_file}
use nexuscloud.Storage.Service.Move.{owned_directory, move_file, move_directory}
use nexuscloud.Storage.Service.Folders.{
  delete_directory, permanently_delete_directory, restore_directory,
}
use nexuscloud.Storage.Service.Isolation.Owned.{
  Refuses, OwnsFile, OwnsFolder, owned_file-verdict, owned_directory-verdict,
}
use nexuscloud.Storage.Service.Requests.{
  Request, serve, upload_file, versions_of, delete_file, purge_file, untrash_file, read_version,
  restore_old, rename_file, rename_folder, list_at, make_folder, delete_folder, purge_folder,
  untrash_folder, read_file, open_shared_folder, ask_upload_permission, end_share, share_out,
  trash_of_mine, shares_by_me, shares_with_me,
}

-- The file that a request names by its identifier.
unfoldable pub named_file : Request → Option Str
named_file (versions_of id) = some id
named_file (delete_file id) = some id
named_file (purge_file id) = some id
named_file (untrash_file id) = some id
named_file (read_version id num) = some id
named_file (restore_old id num) = some id
named_file (rename_file id parent name) = some id
named_file r = none

-- The folder that a request names by its identifier.
unfoldable pub named_folder : Request → Option Str
named_folder (rename_folder id parent name) = some id
named_folder (delete_folder id) = some id
named_folder (purge_folder id) = some id
named_folder (untrash_folder id) = some id
named_folder r = none

some_injective : {A : Type 0} {x y : A} → some x ≡ some y → x ≡ y
some_injective h = cc

-- What begins with a step that is refused is refused.
Refuses-bind :
    {Disk A B : Type 0} (m : Action (World Disk) A) (g : A → Action (World Disk) B) (w : World Disk)
    → Refuses w (m w)
    → Refuses w ((m >>= g) w)
Refuses-bind m g w ((e, q), d, k) =
    let same = bind-err m g e w (m w).1 (ap (λ r. (r, (m w).1)) q) in
    subst (Refuses w) (sym same) ((e, refl), d, k)

module _ {A : Type 0} (o : Outside) (user id : Str) (w : World o.Disk) where
  owned_file-gate :
      (g : FileMeta → Service o A) → OwnsFile user id w ⊎ Refuses w ((owned_file o user id >>= g) w)
  owned_file-gate g = elim (owned_file-verdict o user id w) [
    | inl mine ↦ inl mine
    | inr told ↦ inr (Refuses-bind (owned_file o user id) g w told)
  ]

  owned_directory-gate :
      (g : Directory → Service o A)
      → OwnsFolder user id w ⊎ Refuses w ((owned_directory o user id >>= g) w)
  owned_directory-gate g = elim (owned_directory-verdict o user id w) [
    | inl mine ↦ inl mine
    | inr told ↦ inr (Refuses-bind (owned_directory o user id) g w told)
  ]

-- Listing the versions of a file, reading or restoring one of them, and deleting, purging, untrashing
-- and moving a file are for its owner alone: when such a request names a file, then the row with that
-- identifier belongs to the user, or the request fails and changes neither the tables nor the content
-- store, whatever goes wrong.
pub serve-OwnsFile :
    (o : Outside) (s : Settings) (now : ℕ) (user id : Str) (r : Request) (w : World o.Disk)
    → named_file r ≡ some id
    → OwnsFile user id w ⊎ Refuses w (serve o s now user r w)
unfolding serve named_file list_file_versions delete permanently_delete_file restore_file
    download_version restore_version move_file
serve-OwnsFile o s now user id r w = gate r
  where
    done : {A : Type 0} → A → Service o (Unit {0})
    done a = pure tt

    own : (i : Str) → some i ≡ some id → OwnsFile user i w → OwnsFile user id w
    own i e = subst (λ x. OwnsFile user x w) (some_injective e)

    one :
        {A : Type 0} (i : Str) (g : FileMeta → Service o A)
        → some i ≡ some id
        → OwnsFile user id w ⊎ Refuses w ((owned_file o user i >>= g) w)
    one i g e = elim (owned_file-gate o user i w g) [ inl x ↦ inl (own i e x) | inr x ↦ inr x ]

    two :
        {A : Type 0} (i : Str) (g : FileMeta → Service o A)
        → some i ≡ some id
        → OwnsFile user id w ⊎ Refuses w ((owned_file o user i >>= g >>= done) w)
    two i g e = elim (one i g e) [
      | inl x ↦ inl x
      | inr x ↦ inr (Refuses-bind (owned_file o user i >>= g) done w x)
    ]

    gate :
        (r : Request)
        → named_file r ≡ some id
        → OwnsFile user id w ⊎ Refuses w (serve o s now user r w)
    gate (versions_of i) e = two i _ e
    gate (delete_file i) e = one i _ e
    gate (purge_file i) e = one i _ e
    gate (untrash_file i) e = one i _ e
    gate (read_version i num) e = two i _ e
    gate (restore_old i num) e = two i _ e
    gate (rename_file i parent name) e = two i _ e
    gate (upload_file a b c d e) n = cc
    gate (rename_folder i parent name) n = cc
    gate (list_at a) n = cc
    gate (make_folder a b c) n = cc
    gate (delete_folder a) n = cc
    gate (purge_folder a) n = cc
    gate (untrash_folder a) n = cc
    gate (read_file a) n = cc
    gate (open_shared_folder a) n = cc
    gate (ask_upload_permission a) n = cc
    gate (end_share a) n = cc
    gate (share_out a) n = cc
    gate trash_of_mine n = cc
    gate shares_by_me n = cc
    gate shares_with_me n = cc

-- Moving, deleting, purging and untrashing a folder are for its owner alone: when such a request names
-- a folder, then the row with that identifier belongs to the user, or the request fails and changes
-- neither the tables nor the content store, whatever goes wrong.
pub serve-OwnsFolder :
    (o : Outside) (s : Settings) (now : ℕ) (user id : Str) (r : Request) (w : World o.Disk)
    → named_folder r ≡ some id
    → OwnsFolder user id w ⊎ Refuses w (serve o s now user r w)
unfolding serve named_folder delete_directory permanently_delete_directory restore_directory
    move_directory
serve-OwnsFolder o s now user id r w = gate r
  where
    own : (i : Str) → some i ≡ some id → OwnsFolder user i w → OwnsFolder user id w
    own i e = subst (λ x. OwnsFolder user x w) (some_injective e)

    one :
        {A : Type 0} (i : Str) (g : Directory → Service o A)
        → some i ≡ some id
        → OwnsFolder user id w ⊎ Refuses w ((owned_directory o user i >>= g) w)
    one i g e = elim (owned_directory-gate o user i w g) [ inl x ↦ inl (own i e x) | inr x ↦ inr x ]

    moved :
        (i : Str) (g : Directory → Service o Directory)
        → OwnsFolder user id w ⊎ Refuses w ((owned_directory o user i >>= g) w)
        → OwnsFolder user id w ⊎ Refuses w ((owned_directory o user i >>= g >>= λ _. pure tt) w)
    moved i g (inl x) = inl x
    moved i g (inr x) = inr (Refuses-bind (owned_directory o user i >>= g) _ w x)

    gate :
        (r : Request)
        → named_folder r ≡ some id
        → OwnsFolder user id w ⊎ Refuses w (serve o s now user r w)
    gate (rename_folder i parent name) e = moved i _ (one i _ e)
    gate (delete_folder i) e = one i _ e
    gate (purge_folder i) e = one i _ e
    gate (untrash_folder i) e = one i _ e
    gate (upload_file a b c d e) n = cc
    gate (versions_of i) e = cc
    gate (delete_file i) e = cc
    gate (purge_file i) e = cc
    gate (untrash_file i) e = cc
    gate (read_version i num) e = cc
    gate (restore_old i num) e = cc
    gate (rename_file i parent name) e = cc
    gate (list_at a) n = cc
    gate (make_folder a b c) n = cc
    gate (read_file a) n = cc
    gate (open_shared_folder a) n = cc
    gate (ask_upload_permission a) n = cc
    gate (end_share a) n = cc
    gate (share_out a) n = cc
    gate trash_of_mine n = cc
    gate shares_by_me n = cc
    gate shares_with_me n = cc
