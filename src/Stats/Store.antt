-- ===== src/Stats/Store.antt =====
-- The store of pkg/stats: pkg/stats/store.go.
pub mod Clock
pub mod Rings
pub mod Files
pub mod Sample
pub mod Entry
pub mod State
pub mod Calls
pub mod Sweep
pub mod Reads
pub mod Lifetime
pub mod Counts
pub mod Held
pub mod Invariant
pub mod Safety
pub mod Answers
pub mod Values
pub mod Totals
pub mod Minutes
pub mod Steady
mod Tests
