-- ===== src/External.antt =====
-- Package external: clients of the other services.
pub mod GatewayPort
pub mod InternalAuth
pub mod UserService
