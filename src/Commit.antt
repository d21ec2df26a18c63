-- ===== src/Commit.antt =====
-- tx.go, db.go and index.go: what `Commit` does with the indexes and the published state.
pub mod Indexes
pub mod Maps
pub mod Shadow
pub mod Apply
pub mod Entries
pub mod Primary
pub mod Loops
pub mod Changes
pub mod Shown
pub mod Idle
pub mod Published
pub mod Run
pub mod Unique
pub mod Conflicts
pub mod Uniqueness
pub mod Validation
pub mod OldEntry
pub mod Moved
pub mod Success
pub mod Total
pub mod Completion
mod Sample
mod Tests
