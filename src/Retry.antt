-- ===== src/Retry.antt =====
-- Package retry: retry policies and their delays.
pub mod Policy
