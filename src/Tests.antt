-- ===== src/Tests.antt =====
-- Runs on concrete data, and one concrete case of each result.
mod History
mod Decoder
mod Paths
mod Protection
mod Hub
mod Ports
mod Mapping
mod Reader
mod Crypto
mod Supervisor
mod Update
mod Configuration
mod Disk
mod Documents
mod Inspection
