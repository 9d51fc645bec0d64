-- ===== src/TotpSecret.antt =====
-- src/totpsecret.rs: TOTP secrets encrypted at rest.
mod Defs
mod Laws
unfoldable pub use Defs.*
pub use Laws.*
