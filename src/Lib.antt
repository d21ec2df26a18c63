-- ===== src/Lib.antt =====
-- MasterKeeper, an embedded database with transactions: a verification library over its Go code.
--
-- A transaction collects its changes in change sets (tx.go) through the operations on tables
-- (table.go) and ends under the writer lock (db.go). Its commit goes to the write-ahead log (wal.go),
-- which appends the records to the record files of the tables (storage.go); the indexes are trees in
-- pages of a file of their own (bplus_tree.go). Queries read the records (query.go), and a start of
-- the database replays the log (db.go).
--
-- Base: lists over native numbers, dictionaries, machine integers, bytes. A Go map is an association
--   list, and an operation that can fail gives `Result`, a Go pair of a value and an error.
-- Storage (storage.go): the record file, `AppendRecord`, `AppendRecords`, `ReadRecord`, `Compact`,
--   `Reset` and `Close` as functions on the bytes of the file.
-- Wal (wal.go): `Record` is `writeRecordToBuffer`, `Reader` is `ReadAllRecords`, `Manager` is
--   `processTasks`, `AppendRollbackMarker` and `Truncate`.
-- Transaction (tx.go, table.go): `State` has the change sets, `Table` the operations, `View` and
--   `Spec` a map from keys to records for each table as what a transaction promises.
--   `Calls`, `KeyedChanges` and `Keyed` have whole sequences of calls.
-- Commit (tx.go, db.go, index.go): `Indexes` is the interface of a table's indexes, and `Maps` the
--   specification of an index: a map that never reports an error. `Shadow` is the functions of db.go
--   that enter and delete the entries of a record, `Apply` what `Commit` does with the changes and
--   the reply of the log, `Unique` is `validateUniqueIndexes`. What is shown of published states is
--   shown over `Maps`: it is about the loops of `Commit` and not about the tree of bplus_tree.go,
--   which is such a map only where `compareByteKeys` tells its keys apart. The other files prove:
--   `Entries`, `Primary`, `Loops`, `Changes`, `Shown`, `Published` and `Run` follow one key from the
--   calls of a transaction to the published state, `Success`, `Total`, `Idle` and `Completion` show
--   that it comes to that, `Conflicts`, `Uniqueness`, `Validation`, `OldEntry` and `Moved` are about
--   unique values.
-- Index (bplus_tree.go, codec.go): `Page` has the pages, headers, checksums and superblocks, `Pages`
--   the allocation of pages in a commit, `Catalog` the page of the catalog with `CatalogCells` and
--   `CatalogPage` for its proofs, `Key` the composite keys, `Compare`
--   the order of keys, with `readValue` and `compareValues` under it; `CompareEnds` and `Collision` are
--   about that order.
-- Database (db.go, tx.go): `Recovery` chooses what `recover` replays, `Lifecycle` is the writer lock
--   and `runTransaction`, with `Commit` and `Rollback` as they end a transaction, and the calls of a
--   callback that ask for the lock: inside a transaction such a call waits for ever.
-- Query (query.go): the conditions, and `List` behind the collection of the records. `Conditions` says
--   what a condition means by the values that it compares.
--
-- The checksum, the sort, the key codec, and what the operating system does with a write or a sync
-- are arguments. `ReadAllRecords` runs on one round for every byte of the log and one more, which is
-- enough since every round takes bytes; the order of keys runs on one more than the bytes of the first
-- key, since the parts of a composite key are shorter than the key.
--
-- Not modelled: reflection over record types (getPrimaryKey, getFieldValue and the coding of records
-- and structs are arguments), the operations of the tree, the replay of the log, the collection of the
-- records by a query, goroutines and channels, and the import from other databases (migration.go).
pub mod Base
pub mod Storage
pub mod Wal
pub mod Transaction
pub mod Index
pub mod Database
pub mod Query
pub mod Commit
