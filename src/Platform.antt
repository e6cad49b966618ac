-- ===== src/Platform.antt =====
-- internal/platform/platform.go: commands, files, the stored configuration, and the host's state.
mod Runner
mod Release
mod Files
mod Host
pub mod Atomic
pub mod Quiet
unfoldable pub use Runner.*
unfoldable pub use Release.*
unfoldable pub use Files.*
unfoldable pub use Host.*
