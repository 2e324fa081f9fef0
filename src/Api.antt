-- ===== src/Api.antt =====
-- Package `apiv1` (nexuscloud/internal/api/v1).
pub mod Range
