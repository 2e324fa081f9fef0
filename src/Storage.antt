-- ===== src/Storage.antt =====
-- Package `storage` (nexuscloud/internal/storage).
pub mod Errors
pub mod Model
pub mod SafeJoin
pub mod Names
pub mod Action
pub mod World
pub mod Table
pub mod Shares
pub mod Pools
pub mod Files
pub mod Directories
pub mod Versions
pub mod Service
