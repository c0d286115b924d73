-- ===== src/Security.antt =====
-- Rate limits and recovery marks: src/security/.
pub mod Protection
