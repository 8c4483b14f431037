-- ===== src/ServiceBase.antt =====
-- service.go: the state that every service embeds, and its methods.
mod Defs
pub mod Channels
pub mod Invariant
pub mod Flow
pub mod Broadcast
pub mod Sends
pub mod Dependencies
unfoldable pub use Defs.*
