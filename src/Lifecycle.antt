-- ===== src/Lifecycle.antt =====
-- The lifecycle of instances, crates/lifecycle: the order in which the tables and the machines change.
pub mod Manager
pub mod Actions
pub mod Allocate
pub mod Create
pub mod Rename
pub mod Reconcile
mod Tests
