-- ===== src/Relay.antt =====
-- src/relay.rs: the outbox relay.
mod Defs
mod Stream
mod Delivery
mod Completeness
mod Progress
unfoldable pub use Defs.*
pub use Stream.*
pub use Delivery.*
pub use Completeness.*
pub use Progress.*
