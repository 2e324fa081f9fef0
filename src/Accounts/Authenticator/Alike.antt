-- ===== src/Accounts/Authenticator/Alike.antt =====
-- What `Authenticator.Login` tells of the names of users to whom it does not let in.
use nexuscloud.Base.{Str, if◌then◌else◌}
use nexuscloud.Storage.Errors.{Error, failed, authentication_failed}
use nexuscloud.Storage.World.{fault_of}
use nexuscloud.Accounts.World.{Library, World}

module _ (lib : Library) (name password : Str) (w : World) where
  -- The answer to a name and a password that do not belong together.
  abbrev refusal : Error
  refusal = if fault_of w.db_faults then failed else authentication_failed
