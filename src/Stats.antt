-- ===== src/Stats.antt =====
-- Package pkg/stats: per-item statistics.
mod Tests
pub mod Errors
pub mod Limits
pub mod Floats
pub mod Ring
pub mod Rules
pub mod Evaluator
pub mod Live
pub mod Partial
pub mod Store
pub mod Units
pub mod Query
