-- ===== src/History.antt =====
-- What no sequence of requests undoes (src/grpc.rs, src/repo.rs, src/relay.rs).
pub mod Rows
pub mod Ledger
pub mod Elsewhere
pub mod Idle
pub mod Writes
pub mod Reads
pub mod Sessions
pub mod Codes
pub mod Trail
pub mod Instance
pub mod Handlers
pub mod Requests
pub mod Run
pub mod Forever
