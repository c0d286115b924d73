-- ===== src/Storage.antt =====
-- Files and backups: src/storage.
pub mod Crypto
