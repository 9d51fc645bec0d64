-- ===== src/Tenancy.antt =====
-- What roles, permissions and tenants guarantee (src/grpc.rs, src/repo.rs).
pub mod Guarded
pub mod Builtin
pub mod Bulk
pub mod Names
pub mod Scope
