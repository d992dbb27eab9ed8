-- ===== src/Vault.antt =====
-- internal/vault: the plaintext credentials, and the client of the transit engine.
mod Plaintext
unfoldable pub use Plaintext.*
pub mod Wiped
pub mod Transit
pub mod Truthful
pub mod Opens
pub mod Leftovers
