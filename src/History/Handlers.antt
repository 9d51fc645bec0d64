-- ===== src/History/Handlers.antt =====
-- Each handler of src/grpc.rs as a step of the ledger.
pub mod Common
pub mod Sessions
pub mod Accounts
pub mod Clients
pub mod Admin
