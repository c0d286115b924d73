-- ===== src/Console.antt =====
-- The console service: src/grpc/services/console/.
pub mod History
pub mod Decoder
pub mod Hub
pub mod Reader
