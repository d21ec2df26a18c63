-- ===== src/Database.antt =====
-- db.go: the database. `Recovery` has the choice of the transactions that are replayed from the log,
-- `Lifecycle` the writer lock and the run of a transaction under it; the others the proofs.
pub mod Recovery
pub mod Lifecycle
pub mod Release
pub mod Durable
mod Tests
