-- ===== src/Access.antt =====
-- What an access token, or an API key, gives access to (src/grpc.rs).
pub mod Tokens
pub mod Keys
pub mod RoundTrip
pub mod Logout
