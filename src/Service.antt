-- ===== src/Service.antt =====
-- internal/service/service.go: the gRPC service.
pub mod Server
pub mod Reserve
pub mod Execute
pub mod Interleaving
pub mod Quotes
pub mod Balances
