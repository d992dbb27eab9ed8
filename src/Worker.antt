-- ===== src/Worker.antt =====
-- internal/worker/fill_processor.go: the settlement of a fill.
mod Fill
unfoldable pub use Fill.*
pub mod Average
pub mod Settlement
pub mod Clearing
