-- ===== src/Net.antt =====
-- What the program uses of Go's `net` package: `ParseIP`, `To4`, `Equal`, `ParseCIDR`, `Contains`.
mod Address
mod Cidr
mod Samples
unfoldable pub use Address.*
unfoldable pub use Cidr.*
