-- ===== src/Model.antt =====
-- internal/model/model.go: the data of a link, and the checks on what arrives from the peer.
mod Types
mod Host
mod Material
mod Offers
mod Responses
pub mod Accepted
pub mod Padding
pub use Types.*
unfoldable pub use Host.*
unfoldable pub use Material.*
unfoldable pub use Offers.*
unfoldable pub use Responses.*
