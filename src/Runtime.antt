-- ===== src/Runtime.antt =====
-- The containers of the servers: src/runtime.
pub mod Ports
pub mod Mapping
pub mod Supervisor
pub mod Update
pub mod Configuration
pub mod Disk
pub mod Inspection
