-- ===== src/Config/Validate/Areas.antt =====
-- `validateStorageAreas` and `SafeJoin` together: the users' paths and the server's own directories.
use nexuscloud.Config.Model.{Config}
