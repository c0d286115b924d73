-- ===== src/Core.antt =====
-- Configuration, paths and processes: src/core/.
pub mod Paths
