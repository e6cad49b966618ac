-- ===== src/Text.antt =====
-- What the program uses of Go's `strings` and `strconv` packages, over texts of code points.
mod Chars
mod Trim
mod Split
mod Search
mod Number
mod Laws
mod Padding
mod Samples
unfoldable pub use Chars.*
unfoldable pub use Trim.*
unfoldable pub use Split.*
unfoldable pub use Search.*
unfoldable pub use Number.*
pub use Laws.*
pub use Padding.*
