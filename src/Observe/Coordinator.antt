-- ===== src/Observe/Coordinator.antt =====
-- internal/observe/coordinator.go: one collection cycle, and the requests that share it.
pub mod Finalize
pub mod Cycle
pub mod Shared
pub mod Laws
pub mod Healthy
