-- ===== src/Decimal.antt =====
-- What the program uses of github.com/shopspring/decimal: an interface. The carrier holds the
-- decimals up to the package's `Equal`, which is how it compares and prints them.
pub mod Whole
pub mod WholeLaws
mod Laws
pub use Laws.*
