-- ===== src/Keys.antt =====
-- src/keys.rs: the signing keys.
mod Defs
mod Laws
unfoldable pub use Defs.*
pub use Laws.*
