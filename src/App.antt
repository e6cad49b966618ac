-- ===== src/App.antt =====
-- internal/app/app.go: the commands of the program.
mod Names
mod Inputs
mod Install
mod Guard
mod Certificates
mod Ssh
mod Uninstall
mod Manage
mod LeakTest
mod Report
mod Init
mod Join
mod Accept
mod Menu
pub mod Quiet
pub mod GuardFirst
pub mod GuardStays
pub mod Restored
pub mod Checked
pub mod Direct
pub mod Agreement
pub mod Choices
unfoldable pub use Names.*
unfoldable pub use Inputs.*
unfoldable pub use Install.*
unfoldable pub use Guard.*
unfoldable pub use Certificates.*
unfoldable pub use Ssh.*
unfoldable pub use Uninstall.*
unfoldable pub use Manage.*
unfoldable pub use LeakTest.*
unfoldable pub use Report.*
unfoldable pub use Init.*
unfoldable pub use Join.*
unfoldable pub use Accept.*
unfoldable pub use Menu.*
