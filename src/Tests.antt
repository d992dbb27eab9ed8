-- ===== src/Tests.antt =====
-- Runs of the model on concrete inputs, and the theorems at such inputs.
mod Fixtures
mod Trades
mod Orders
mod Fills
mod Webhooks
mod Market
mod Quotes
mod Waiting
mod Startup
mod Cache
mod Vault
mod Downstream
mod Service
mod Schedules
