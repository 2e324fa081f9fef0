-- ===== src/Storage/Service/Trash/Undo.antt =====
-- A file that goes to the trash and comes back.
use nexuscloud.Base.{
  ◌≡◌, refl, sym, ◌∙◌, ap, ℕ, true, Option, none, some, [], Str, if◌then◌else◌, find_first, str_eq,
  str_eq_refl,
}
use nexuscloud.Storage.Errors.{ok}
use nexuscloud.Storage.Model.{FileMeta}
use nexuscloud.Storage.Action.{attempt, lift, ◌>>◌}
use nexuscloud.Storage.World.{Outside, World, Settings}
use nexuscloud.Storage.World.Calls.{bind-ok, execute-eq}
use nexuscloud.Storage.Table.{update_row}
use nexuscloud.Storage.Table.Rows.{any_of-found, find_first-update_row, update_row-undo}
use nexuscloud.Storage.Files.{
  has_id, update_by_id, set_file_deleted_at, soft_delete_file, restore_file_row,
}
use nexuscloud.Storage.Service.History.{owned_file}
use nexuscloud.Storage.Service.Trash.{delete, permanently_delete, restore_file}
use nexuscloud.Storage.Service.Isolation.Owned.{owned_file-eq}

abbrev set_deleted_at : Option ℕ → FileMeta → FileMeta
set_deleted_at t g = record g { deleted_at = t }

module _ (o : Outside) where
  set_file_deleted_at-eq :
      (t : Option ℕ) (f : FileMeta) (w : World o.Disk)
      → w.db_faults ≡ []
      → find_first (has_id f.id) w.db.files ≡ some f
      → set_file_deleted_at o f.id t w ≡ (
        ok tt,
        record w {
          db = record w.db { files = update_row (has_id f.id) (set_deleted_at t) w.db.files };
        },
      )
  unfolding set_file_deleted_at update_by_id
  set_file_deleted_at-eq t f w q h =
      execute-eq w q _ _ (rw (any_of-found (has_id f.id) w.db.files f h) refl)

-- With the trash switched on and no fault of the database to come, the owner who deletes an active
-- file and then restores it has the very world from before, content store and tables alike.
pub delete-restore_file :
    (o : Outside) (s : Settings) (now : ℕ) (user : Str) (f : FileMeta) (w : World o.Disk)
    → s.trash_enabled ≡ true
    → w.db_faults ≡ []
    → find_first (has_id f.id) w.db.files ≡ some f
    → str_eq f.owner_id user ≡ true
    → f.deleted_at ≡ none
    → (delete o s now user f.id >> restore_file o s user f.id) w ≡ (ok tt, w)
unfolding delete restore_file soft_delete_file restore_file_row has_id attempt lift
delete-restore_file o s now user f w t q h k a =
    bind-ok (delete o s now user f.id) (λ _. restore_file o s user f.id) tt w w' deleted ∙ restored
  where
    trashed : FileMeta
    trashed = set_deleted_at (some now) f

    w' : World o.Disk
    w' = record w {
      db = record w.db { files = update_row (has_id f.id) (set_deleted_at (some now)) w.db.files };
    }

    deleted : delete o s now user f.id w ≡ (ok tt, w')
    deleted =
        bind-ok (owned_file o user f.id) _ f w w (owned_file-eq o user f.id w q f h k)
        ∙ ap (λ b. (if b then soft_delete_file o f.id now else permanently_delete o s f) w) t
        ∙ set_file_deleted_at-eq o (some now) f w q h

    found : find_first (has_id f.id) w'.db.files ≡ some trashed
    found =
        find_first-update_row (has_id f.id) (set_deleted_at (some now)) w.db.files f h
          (str_eq_refl f.id)

    marked : attempt (restore_file_row o f.id) w' ≡ (
      ok (ok tt),
      record w' {
        db = record w'.db { files = update_row (has_id f.id) (set_deleted_at none) w'.db.files };
      },
    )
    marked = ap (λ x. (ok x.0, x.1)) (set_file_deleted_at-eq o none trashed w' q found)

    undone : update_row (has_id f.id) (set_deleted_at none) w'.db.files ≡ w.db.files
    undone =
        update_row-undo (has_id f.id) (set_deleted_at (some now)) (set_deleted_at none) w.db.files f
          h (str_eq_refl f.id) (ap (λ x. record f { deleted_at = x }) (sym a))

    restored : restore_file o s user f.id w' ≡ (ok tt, w)
    restored =
        bind-ok (owned_file o user f.id) _ trashed w' w'
          (owned_file-eq o user f.id w' q trashed found k)
        ∙ bind-ok (attempt (restore_file_row o f.id)) _ (ok tt) w' _ marked
        ∙ ap (λ fs. (ok tt, record w { db = record w.db { files = fs } })) undone
