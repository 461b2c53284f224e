-- ===== src/Stats/Evaluator.antt =====
-- The alerts of pkg/stats/evaluator.go: the state of one item and what a committed minute does to it.
mod Tests
pub mod Item
pub mod Alerts
pub mod Key
pub mod Minute
pub mod Machine
pub mod Run
pub mod History
pub mod Put
pub mod Isolation
pub mod Queue
pub mod Drain
pub mod Reconcile
pub mod Settings
pub mod InForce
pub mod Recount
pub mod Agree
pub mod Backwards
pub mod Invariant
pub mod Sound
pub mod Kept
pub mod Load
pub mod Loaded
pub mod Replace
pub mod Calls
