-- ===== src/Samples.antt =====
-- Concrete data for the examples: two tenants, a few users, and libraries that are simple functions.
mod Data
mod Services
mod Running
pub use Data.*
pub use Services.*
unfoldable pub use Running.*
