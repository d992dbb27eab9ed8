-- ===== src/Webhook.antt =====
-- internal/webhook/handler.go: the HTTP endpoint for the broker's execution reports.
mod Handler
unfoldable pub use Handler.*
pub mod Answers
