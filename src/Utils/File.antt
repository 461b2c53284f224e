-- ===== src/Utils/File.antt =====
-- Package utils/file.
pub mod Archive
pub mod Walk
pub mod Refused
pub mod Perfect
pub mod Fed
pub mod Whole
pub mod Sized
pub mod Prefix
mod Tests
