-- ===== src/Stats/Ring.antt =====
-- The ring file of pkg/stats/ring.go: one file per item, with two header copies, a stamp column and
-- three columns of float32 per series.
pub mod Buffer
pub mod Header
pub mod Layout
pub mod Disk
pub mod Write
pub mod Open
pub mod Window
pub mod Recover
pub mod Torn
pub mod Durable
pub mod Forget
pub mod Create
pub mod Words
pub mod Commit
pub mod Minute
pub mod Scan
pub mod Lookup
mod Tests
