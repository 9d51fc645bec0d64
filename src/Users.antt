-- ===== src/Users.antt =====
-- The table of users under everything the service does (src/repo.rs, src/grpc.rs): what its
-- indexes, its columns and its handlers keep true of it.
pub mod Sound
pub mod Elsewhere
pub mod Updates
pub mod Instance
pub mod Activation
pub mod Run
