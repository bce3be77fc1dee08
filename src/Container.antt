-- ===== src/Container.antt =====
-- The container service, crates/container/src/container_service.rs, and the devices that it asks
-- crates/gpu/src/lib.rs for.
pub mod Requests
pub mod HostPaths
pub mod Gpu
pub mod World
pub mod Create
pub mod Operations
pub mod Pull
mod Tests
