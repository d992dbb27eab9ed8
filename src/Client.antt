-- ===== src/Client.antt =====
-- internal/client: the parameters and the interfaces of the two downstream services.
pub mod Ativos
pub mod Livro
