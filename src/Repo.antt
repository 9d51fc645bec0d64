-- ===== src/Repo.antt =====
-- src/repo.rs: one action for each method of `Repo`, with the constraints of the tables that it
-- writes (migrations/). The service connects as the owner of the tables, which row-level security
-- does not bind; where a method assumes the role `iam_rls`, its queries see the roles of the tenant
-- and the built-in templates alone.
mod Tables
mod Users
mod Account
mod Tokens
mod Totp
mod ApiKeys
mod Tenants
mod Roles
mod Permissions
mod Oauth
mod Audit
unfoldable pub use Tables.*
unfoldable pub use Users.*
unfoldable pub use Account.*
unfoldable pub use Tokens.*
unfoldable pub use Totp.*
unfoldable pub use ApiKeys.*
unfoldable pub use Tenants.*
unfoldable pub use Roles.*
unfoldable pub use Permissions.*
unfoldable pub use Oauth.*
unfoldable pub use Audit.*
