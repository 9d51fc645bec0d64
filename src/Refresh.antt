-- ===== src/Refresh.antt =====
-- What refreshing a session guarantees (src/grpc.rs, `refresh`).
pub mod Issue
pub mod Soundness
pub mod Reuse
pub mod Rotation
pub mod Replay
pub mod Liveness
