-- ===== src/Cache.antt =====
-- src/cache.rs: the optional Redis layer, a denylist of access tokens and a cache of permissions.
mod Defs
mod Laws
mod Glob
mod Invalidation
unfoldable pub use Defs.*
pub use Laws.*
unfoldable pub use Glob.*
pub use Invalidation.*
