-- ===== src/Storage/Service/Isolation.antt =====
-- What the file service leaves alone: the rows that belong to other users.
pub mod Rows
pub mod DirRows
pub mod Statements
pub mod Sharing
pub mod Owned
pub mod Calls
pub mod Files
pub mod Folders
