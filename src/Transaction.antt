-- ===== src/Transaction.antt =====
-- tx.go and table.go: a write transaction and the operations of a table inside it.
pub mod State
pub mod Table
pub mod View
pub mod Spec
pub mod Invariant
pub mod Refinement
pub mod Deletion
pub mod Compound
pub mod Lookup
pub mod Reinsertion
pub mod Calls
pub mod KeyedChanges
pub mod Keyed
mod Tests
