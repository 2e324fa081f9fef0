-- ===== src/WebDav.antt =====
-- nexuscloud/internal/webdav: the tree that a WebDAV client sees, on top of the file service.
pub mod FileSystem
pub mod Calls
pub mod Handler
