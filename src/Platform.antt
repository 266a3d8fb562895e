-- ===== src/Platform.antt =====
-- internal/platform: the firmware's messages and the fallback between its two devices.
pub mod FirmwareProtocol
pub mod FirmwareDevices
pub mod Netlink
