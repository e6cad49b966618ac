-- ===== src/System.antt =====
-- The program's effects: what it asks of the operating system, the answers, and actions that may fail.
mod Requests
mod Actions
pub mod Keeps
pub mod Quiet
pub mod Fails
pub use Requests.*
unfoldable pub use Actions.*
