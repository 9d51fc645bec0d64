-- ===== src/SignIn.antt =====
-- What signing in guarantees (src/grpc.rs, `login` and `login_totp`).
pub mod Password
pub mod Lockout
pub mod SecondFactor
pub mod Liveness
