-- ===== src/Observe.antt =====
-- internal/observe: the typed outcomes of collection, the collectors, the long-lived observers and
-- the coordinator.
pub mod Outcome
pub mod Observations
pub mod Coordinator
pub mod Parsers
pub mod Generic
pub mod Cpu
pub mod Degradation
pub mod Network
pub mod RaspberryPi
pub mod Firmware
pub mod Production
