-- ===== src/Accounts.antt =====
-- What the registration and the deletion of a user guarantee (src/repo.rs).
pub mod Deletion
pub mod Registration
pub mod Trail
pub mod FirstLogin
