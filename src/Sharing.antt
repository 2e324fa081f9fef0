-- ===== src/Sharing.antt =====
-- The parts of package `storage` on shares that need no database: share.go, and from
-- file_service_sharing.go the reader with a limit and the choice among upload permissions.
pub mod Lifecycle
pub mod Reader
pub mod Grants
