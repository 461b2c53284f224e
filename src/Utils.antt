-- ===== src/Utils.antt =====
-- The packages below utils/.
pub mod Command
pub mod File
pub mod Jwt
pub mod Version
