-- ===== src/World.antt =====
-- What a request of the service reads and changes: the database, Redis, the mail that was sent; and
-- what it takes from code outside the repository, as one record of functions (`Env`). The record
-- fixes no law: a theorem that needs one has it as a hypothesis.
mod State
mod Monad
mod Success
mod Footprint
pub use Footprint.*
pub use Success.*
pub use State.*
unfoldable pub use Monad.*
