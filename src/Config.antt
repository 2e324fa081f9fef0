-- ===== src/Config.antt =====
-- nexuscloud/internal/config: the settings of a server (config.go), the variables of the environment
-- (env.go) and what is checked before a start (validate.go).
pub mod Model
pub mod Defaults
pub mod Environment
pub mod Validate
pub mod Load
