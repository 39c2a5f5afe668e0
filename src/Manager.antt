-- ===== src/Manager.antt =====
-- pkg/manager: the connection manager.
pub mod Gate
pub mod Dial
pub mod Timeouts
pub mod SmsTrim
pub mod SmsPdu
pub mod Smsc
pub mod Readiness
pub mod Connection
pub mod Recovery
pub mod DataPlane
pub mod Pool
