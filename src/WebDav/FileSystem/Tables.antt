-- ===== src/WebDav/FileSystem/Tables.antt =====
-- What the WebDAV file system only reads keeps the tables.
use nexuscloud.Base.{ℕ, Option, none, some, List, [], ◌∷◌, Str}
use nexuscloud.Storage.Errors.{Result, ok, err}
use nexuscloud.Storage.Model.{Directory}
use nexuscloud.Storage.Action.Keeps.{Keeps, keeps_rules, Keeps-bind, Keeps-attempt, Keeps-lift}
use nexuscloud.Storage.World.{Outside, Settings, Service}
use nexuscloud.Storage.World.Tables.{Tables, On}
use nexuscloud.Storage.Service.Access.{download}
use nexuscloud.Storage.Service.Isolation.Folders.{list_folder-On}
use nexuscloud.Storage.Service.Isolation.Sharing.{download-On}
use nexuscloud.WebDav.FileSystem.{
  Visit, Dav, Entry, root, folder, file, call, ask, look_up, stat, require_parent_dir, content_of,
  open_for_read, open_for_write,
}
use nexuscloud.WebDav.FileSystem.Remove.{
  request_info, set_overwrite, and_then, remove_trees, agree, begin_overwrite,
}

-- A predicate on the tables, during a request.
unfoldable pub OnTree : {Disk : Type 0} → Tables → Visit Disk → Type 0
OnTree D v = On D v.world

module _ (o : Outside) (D : Tables) where
  pub call-OnTree : {A : Type 0} (m : Service o A) → Keeps (On D) m → Keeps (OnTree D) (call o m)
  unfolding call OnTree
  call-OnTree m k = record { at = λ v. λ h. k.at v.world h }

  pub ask-OnTree : {A : Type 0} (m : Service o A) → Keeps (On D) m → Keeps (OnTree D) (ask o m)
  unfolding ask
  ask-OnTree m k = Keeps-bind _ _ (Keeps-attempt _ (call-OnTree m k)) (λ r. Keeps-lift _)

  pub request_info-OnTree : Keeps (OnTree D) (request_info o)
  unfolding request_info OnTree
  request_info-OnTree = record { at = λ v. λ h. h }

  pub set_overwrite-OnTree : (path : Str) → Keeps (OnTree D) (set_overwrite o path)
  unfolding set_overwrite OnTree
  set_overwrite-OnTree path = record { at = λ v. λ h. h }

module _ (o : Outside) (s : Settings) (D : Tables) where
  pub look_up-OnTree : (owner name : Str) → Keeps (OnTree D) (look_up o s owner name)
  unfolding look_up
  look_up-OnTree owner name = search (keeps_rules, ask-OnTree, list_folder-On)

  pub stat-OnTree :
      (created : ℕ) (owner name : Str) → Keeps (OnTree D) (stat o s created owner name)
  unfolding stat
  stat-OnTree created owner name = search (keeps_rules, look_up-OnTree)

  pub require_parent_dir-OnTree :
      (owner path : Str) → Keeps (OnTree D) (require_parent_dir o s owner path)
  unfolding require_parent_dir
  require_parent_dir-OnTree owner path = search (keeps_rules, look_up-OnTree)

  pub ask-download-OnTree :
      (now : ℕ) (user id : Str) → Keeps (OnTree D) (ask o (download o s now user id))
  ask-download-OnTree now user id =
      ask-OnTree o D (download o s now user id) (download-On o s D now user id)

  content_of-OnTree :
      (created now : ℕ) (owner : Str) (e : Entry)
      → Keeps (OnTree D) (content_of o s created now owner e)
  unfolding content_of
  content_of-OnTree created now owner (file f) = search (keeps_rules, ask-download-OnTree)
  content_of-OnTree created now owner (folder d) = search keeps_rules
  content_of-OnTree created now owner root = search keeps_rules

  pub open_for_read-OnTree :
      (created now : ℕ) (owner name : Str)
      → Keeps (OnTree D) (open_for_read o s created now owner name)
  unfolding open_for_read
  open_for_read-OnTree created now owner name =
      search (keeps_rules, look_up-OnTree, content_of-OnTree)

  pub open_for_write-OnTree : (owner name : Str) → Keeps (OnTree D) (open_for_write o s owner name)
  unfolding open_for_write
  open_for_write-OnTree owner name =
      search (keeps_rules, look_up-OnTree, require_parent_dir-OnTree) depth 12

  agree-OnTree : (path : Str) (r : Result Entry) → Keeps (OnTree D) (agree o s path r)
  unfolding agree
  agree-OnTree path (ok (file f)) = set_overwrite-OnTree o D path
  agree-OnTree path (ok (folder d)) = search keeps_rules
  agree-OnTree path (ok root) = search keeps_rules
  agree-OnTree path (err e) = search keeps_rules

  pub begin_overwrite-OnTree :
      (owner path : Str) → Keeps (OnTree D) (begin_overwrite o s owner path)
  unfolding begin_overwrite
  begin_overwrite-OnTree owner path = search (keeps_rules, look_up-OnTree, agree-OnTree)

module _ (o : Outside) (D : Tables) where
  pub and_then-OnTree :
      (done : Option (Unit {0})) (m : Dav o (Option (Unit {0})))
      → Keeps (OnTree D) m
      → Keeps (OnTree D) (and_then o done m)
  and_then-OnTree none m k = search keeps_rules
  and_then-OnTree (some u) m k = k

  pub remove_trees-OnTree :
      (go : Str → Directory → Dav o (Option (Unit {0}))) (path : Str) (ds : List Directory)
      → ((path : Str) (d : Directory) → Keeps (OnTree D) (go path d))
      → Keeps (OnTree D) (remove_trees o go path ds)
  unfolding remove_trees
  remove_trees-OnTree go path [] k = search keeps_rules
  remove_trees-OnTree go path (d ∷ ds) k =
      Keeps-bind _ _ (k _ d) (λ done. and_then-OnTree done _ (remove_trees-OnTree go path ds k))
