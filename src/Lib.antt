-- ===== src/Lib.antt =====
-- NexusCloud, a self-hosted file server (nexuscloud/internal): the file service with its versions,
-- trash and moves over a database and a content store, the life of shares, resumed downloads, the
-- accounts with their sessions, invitations and tokens, the configuration, and the WebDAV file
-- system.
--
-- The parts and where they stand:
-- - Base, with Base.Tests, Base.Lists and Base.Text: shared names, tests on native numbers, lists,
--   and Go's byte strings as lists of numbers. GoText and GoPath are what the program uses of Go's
--   `strings`, `strconv`, `path` and `path/filepath` (on a system whose separator is the slash).
-- - Storage.SafeJoin: nexuscloud/internal/storage/path.go, `SafeJoin` and `SafeJoinResolved`. The
--   host's `Lstat` and `EvalSymlinks` are the record `Host`.
-- - Storage.Model: the rows of file.go, directory.go, version.go, share.go and pool.go.
-- - Storage.Names: `validateName`, `normalizeParentPath`, `physicalPath`, `stagingPath` and
--   `versionStoragePath` of file_service.go, `resolveSharedPath` of file_service_sharing.go.
-- - Storage.Action: operations that change a world and may fail, what was written before a failure
--   staying written; Storage.Action.Keeps has the rules for their invariants, Storage.World.Yields
--   those for what reads the tables only.
-- - Storage.World: the tables, the content store and the faults of the database to come. The
--   content store (`storage.Provider`), the identifiers and the media types are the parameter
--   `Outside`, of which nothing is assumed.
-- - Storage.Table, Storage.Files, Storage.Directories, Storage.Versions, Storage.Shares,
--   Storage.Pools: the SQL repositories (file_sql_repository.go and its neighbours) and
--   provider_resolver.go, one action for each statement, with its keys and its count of affected
--   rows. A clash of unique keys is told at the end of a statement. LIKE compares bytes, as in
--   PostgreSQL. Storage.Table.Times has the order of the texts that stand for times, of
--   nexuscloud/internal/db/timeutil.go.
-- - Storage.Service: `FileService` of file_service.go: Upload, History (versions), Trash, Move and
--   Folders. Storage.Service.Access and Storage.Service.Links are the sharing half of it, in
--   file_service_sharing.go: access through shares of users and groups, and links. A content that is
--   read through `errLimitReader` is the reader that `limited` gives, with the bytes and the end of
--   `copy_within` of Sharing.Reader. Storage.Service.Requests has the calls that the handlers of
--   nexuscloud/internal/api/v1 make for a signed-in user, as one data type, less
--   `UploadToSharedDirectory`, whose file belongs to the owner of the folder; its theorems rest on
--   Storage.Service.Isolation.
-- - Sharing.Lifecycle: `checkLifecycle` of share.go and the counter of share_sql_repository.go.
--   Sharing.Reader: `errLimitReader`, on a reader that gives few bytes at a time or ends together
--   with bytes, as its pace says. Sharing.Grants: `mostPermissiveUploadGrant`.
-- - Api.Range: nexuscloud/internal/api/v1/range.go.
-- - Accounts: nexuscloud/internal/users, nexuscloud/internal/auth and the tokens of
--   nexuscloud/internal/webdav. Accounts.Model has the rows, Accounts.World the tables and the
--   parameter `Library` (random values, hashes, passwords and TOTP), Accounts.Users the repository
--   and the service of users, Accounts.Sessions and Accounts.Invitations those of sessions and
--   invitations, Accounts.Authenticator `Login` and `ValidateToken`, Accounts.Tokens the access
--   tokens of WebDAV clients. Accounts.Requests has the calls that the handlers make, as one data
--   type, and what holds after any sequence of them.
-- - Config: nexuscloud/internal/config. Config.Model has the records of config.go and where the
--   server's directories are, Config.Defaults `Defaults`, Config.Environment the overrides of env.go,
--   one value of `Override` for each variable, Config.Validate the checks of validate.go, in their
--   order, and Config.Load `Load` with `migrateSchema`. The host's files, its environment and the
--   YAML decoder are the record `ConfigHost`.
-- - WebDav: `fileSystem` of nexuscloud/internal/webdav/filesystem.go, on top of the file service.
--   WebDav.FileSystem looks up, reads, makes and uploads, WebDav.FileSystem.Remove is `RemoveAll`
--   with `beginOverwrite`, WebDav.FileSystem.Move is `Rename`. A `Visit` is the world together with
--   the `requestInfo` of the request. WebDav.Calls has the calls that `x/net/webdav` makes, as one
--   data type, WebDav.FileSystem.Listing has `Readdir`, and WebDav.Handler the steps of `ServeHTTP`
--   before it hands the request on.
-- - Tests: the theorems at concrete inputs, on a memory store.
--
-- Names correspond by spelling: `rejectIfTrashOccupiesName` is `reject_if_trash_occupies_name`;
-- `lookup` and `Mkdir` of the WebDAV file system are `look_up` and `make_dir`. Where one Go
-- function is cut in several definitions, the comment on each says which part it is.
--
-- Bounds and fuel: times, sizes and counts are natural numbers without an upper bound, but for the
-- numbers that `strconv.ParseInt` reads and what `errLimitReader` has left, which are 64-bit. Times
-- are nanoseconds; Go compares them as such, and SQL compares their texts, byte by byte.
-- `probe_up`, the loop of `SafeJoinResolved`, and `copy_all`, the loop of `io.Copy`, run on fuel;
-- enough is one more than the number of path elements under the root, and of bytes and of calls
-- that the pace of the reader lists. `remove_tree` of WebDav.FileSystem.Remove runs on fuel as
-- well: the length of the longest path of a parent in the table of folders and two are enough. All
-- other loops are over lists. A database call fails when the next entry of `db_faults` says so, and
-- none fails after the end of that list. Requests run one after the other: what two of them at once
-- may do between each other's statements is not modelled, except for the counter of downloads, one
-- statement.
--
-- Not modelled: the provider on the local file system, the administration of pools, backups, the
-- locks of WebDAV, passkeys, the rate limiter, the HTTP handlers around the services, the records
-- of events, connections and migrations, the command line, and the clients.
pub mod Base
pub mod GoText
pub mod GoPath
pub mod Storage
pub mod Sharing
pub mod Api
pub mod Accounts
pub mod Config
pub mod WebDav
pub mod Tests
