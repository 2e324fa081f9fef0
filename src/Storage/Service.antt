-- ===== src/Storage/Service.antt =====
-- `FileService` of nexuscloud/internal/storage/file_service.go.
pub mod Upload
pub mod History
pub mod Trash
pub mod Move
pub mod Folders
pub mod Access
pub mod Links
pub mod Isolation
pub mod Requests
