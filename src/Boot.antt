-- ===== src/Boot.antt =====
-- src/main.rs: the start of the service, and the interceptor of its calls.
mod Defs
mod Laws
unfoldable pub use Defs.*
pub use Laws.*
