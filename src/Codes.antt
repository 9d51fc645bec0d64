-- ===== src/Codes.antt =====
-- What an authorization code is good for (src/grpc.rs, `create_authorization_code`,
-- `exchange_authorization_code`).
pub mod Redeem
pub mod Exchange
pub mod Race
