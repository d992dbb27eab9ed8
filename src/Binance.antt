-- ===== src/Binance.antt =====
-- internal/broker/binance: the client of the broker's HTTP interface.
pub mod Models
pub mod Wire
pub mod Quantity
pub mod Client
pub mod Market
pub mod Symbols
pub mod Orders
pub mod Tickers
