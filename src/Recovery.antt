-- ===== src/Recovery.antt =====
-- What account recovery guarantees (src/grpc.rs, `request_password_reset`, `reset_password`).
pub mod Reset
