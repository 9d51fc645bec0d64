-- ===== src/Saga.antt =====
-- src/saga.rs: permanently failed profile creation.
mod Defs
unfoldable pub use Defs.*
