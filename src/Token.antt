-- ===== src/Token.antt =====
-- internal/token/token.go: pairing tokens.
mod Packages
mod Defs
pub mod RoundTrip
pub mod Accepted
pub use Packages.*
unfoldable pub use Defs.*
