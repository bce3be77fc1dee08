-- ===== src/System.antt =====
-- The system service, crates/system/src/system_service.rs.
pub mod World
pub mod Settings
pub mod Ports
pub mod Collector
pub mod Setup
mod Tests
