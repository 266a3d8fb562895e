-- ===== src/Tests.antt =====
-- Concrete inputs: runs of the model, and the theorems applied where their hypotheses hold.
mod ConfigTests
mod CycleTests
mod CollectorTests
mod NetworkTests
mod HttpTests
mod SharedTests
mod FirmwareTests
mod AppTests
mod PlatformTests
mod ProductionTests
mod NetlinkTests
