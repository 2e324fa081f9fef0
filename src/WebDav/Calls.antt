-- ===== src/WebDav/Calls.antt =====
-- The calls that a WebDAV request makes of its user's file system: `x/net/webdav` chooses them, so that
-- any list of them stands for a request.
use nexuscloud.Base.{◌≡◌, refl, ℕ, Option, List, [], ◌∷◌, Str, select}
use nexuscloud.Sharing.Reader.{Reader}
use nexuscloud.Storage.Errors.{Error}
use nexuscloud.Storage.Model.{FileMeta, Directory}
use nexuscloud.Storage.Action.{pure, attempt, ◌>>=◌}
use nexuscloud.Storage.Action.Keeps.{Keeps, keeps_rules, Keeps-bind, Keeps-attempt}
use nexuscloud.Storage.World.{Outside, Settings}
use nexuscloud.Storage.World.Tables.{On}
use nexuscloud.Storage.Service.Isolation.Rows.{Others, not_of, dir_not_of}
use nexuscloud.WebDav.FileSystem.{
  Visit, Dav, stat, make_dir, open_for_read, open_for_write, close_upload,
}
use nexuscloud.WebDav.FileSystem.Remove.{remove_all}
use nexuscloud.WebDav.FileSystem.Move.{rename}
use nexuscloud.WebDav.FileSystem.Tables.{
  OnTree, stat-OnTree, open_for_read-OnTree, open_for_write-OnTree,
}
use nexuscloud.WebDav.FileSystem.Isolation.{
  make_dir-Others, close_upload-Others, remove_all-Others, rename-Others,
}

-- The methods of `webdav.FileSystem`; a file that is opened for writing is closed after its content,
-- and after the error of the body if it had one.
pub data Call : Type 0 where
  stat_of make_of read_of : Str → Call
  write_of : Str → Reader → Option Error → Call
  remove_of : ℕ → Str → Call
  move_of : Str → Str → Call

module _ (o : Outside) (s : Settings) (created now : ℕ) (user : Str) where
  -- The method that is called; of its result, only whether it failed.
  unfoldable pub make_call : Call → Dav o (Unit {0})
  make_call (stat_of name) = stat o s created user name >>= λ _. pure tt
  make_call (make_of name) = make_dir o s now user name
  make_call (read_of name) = open_for_read o s created now user name >>= λ _. pure tt
  make_call (write_of name content broken) = do
    place ← open_for_write o s user name
    close_upload o s now user place content broken
  make_call (remove_of fuel name) = remove_all o s fuel now user name >>= λ _. pure tt
  make_call (move_of old new) = rename o s now user old new

  -- One call after the other, whether they fail or not.
  unfoldable pub make_calls : List Call → Dav o (Unit {0})
  unfolding make_call
  make_calls [] = pure tt
  make_calls (c ∷ cs) = attempt (make_call c) >>= λ _. make_calls cs

module _ (o : Outside) (s : Settings) (created now : ℕ) (user : Str) (X : List FileMeta)
    (Y : List Directory) where
  make_call-Others :
      (c : Call) → Keeps (OnTree (Others user X Y)) (make_call o s created now user c)
  unfolding make_call
  make_call-Others (stat_of name) = search (keeps_rules, stat-OnTree)
  make_call-Others (make_of name) = make_dir-Others o s user X Y now name
  make_call-Others (read_of name) = search (keeps_rules, open_for_read-OnTree)
  make_call-Others (write_of name content broken) =
      search (keeps_rules, open_for_write-OnTree, close_upload-Others)
  make_call-Others (remove_of fuel name) = search (keeps_rules, remove_all-Others)
  make_call-Others (move_of old new) = rename-Others o s user X Y now old new

  make_calls-Others :
      (cs : List Call) → Keeps (OnTree (Others user X Y)) (make_calls o s created now user cs)
  unfolding make_calls
  make_calls-Others [] = search keeps_rules
  make_calls-Others (c ∷ cs) =
      Keeps-bind _ _ (Keeps-attempt _ (make_call-Others c)) (λ _. make_calls-Others cs)

-- Whatever calls a WebDAV request makes of the file system of its user, and whichever of them fail, the
-- files and directories of all other users are the rows that they were, in the same order.
pub make_calls-others :
    (o : Outside) (s : Settings) (created now : ℕ) (user : Str) (cs : List Call) (v : Visit o.Disk)
    → let v' = (make_calls o s created now user cs v).1 in
      (select (not_of user) v'.world.db.files ≡ select (not_of user) v.world.db.files)
      × (select (dir_not_of user) v'.world.db.directories
          ≡ select (dir_not_of user) v.world.db.directories)
unfolding On OnTree Others
make_calls-others o s created now user cs v =
    (make_calls-Others o s created now user _ _ cs).at v (refl, refl)
