-- ===== src/App.antt =====
-- internal/app: the lifecycle of the process, its startup, the readiness gate and the logger.
pub mod Run
pub mod Startup
pub mod Gate
pub mod Logger
