-- ===== src/Render.antt =====
-- internal/render/render.go: the files that a link needs.
mod Quote
mod Units
mod Scripts
mod WireGuard
mod Json
mod Xray
pub mod Shell
pub mod Lines
pub mod Interface
pub mod Reader
pub mod Tables
pub mod Settings
unfoldable pub use Quote.*
unfoldable pub use Units.*
unfoldable pub use Scripts.*
unfoldable pub use WireGuard.*
unfoldable pub use Json.*
unfoldable pub use Xray.*
