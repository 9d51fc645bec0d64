-- ===== src/Service.antt =====
-- src/grpc.rs: the handlers of `AuthService`. A handler takes the metadata of its request where it
-- reads them, and the fields of the message; it returns those of the response.
mod Guards
mod Tokens
mod Login
mod Sessions
mod Account
mod Users
mod Mfa
mod ApiKeys
mod Oidc
mod Exchange
mod Tenants
mod Roles
unfoldable pub use Guards.*
unfoldable pub use Tokens.*
unfoldable pub use Login.*
unfoldable pub use Sessions.*
unfoldable pub use Account.*
unfoldable pub use Users.*
unfoldable pub use Mfa.*
unfoldable pub use ApiKeys.*
unfoldable pub use Oidc.*
unfoldable pub use Exchange.*
unfoldable pub use Tenants.*
unfoldable pub use Roles.*
