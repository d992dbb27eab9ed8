-- ===== src/Cache.antt =====
-- internal/cache: the quotes in Redis.
mod Quotes
mod Client
unfoldable pub use Quotes.*
pub use Client.*
pub mod Lookup
pub mod Pointwise
pub mod Keys
pub mod Written
pub mod RoundTrip
