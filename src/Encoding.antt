-- ===== src/Encoding.antt =====
-- `encoding/base64` and `encoding/hex`, over bytes as numbers.
mod Base64
mod Hex
pub mod Laws
unfoldable pub use Base64.*
unfoldable pub use Hex.*
pub use Laws.*
