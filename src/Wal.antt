-- ===== src/Wal.antt =====
-- wal.go: the write-ahead log. `Record` has its records as bytes, `Reader` the scan of
-- `ReadAllRecords`, `Manager` the log file and `processTasks`; the others the proofs.
pub mod Record
pub mod Reader
pub mod RoundTrip
pub mod Torn
pub mod Sound
pub mod Step
pub mod Scan
pub mod Manager
pub mod Durability
pub mod Marker
mod Tests
