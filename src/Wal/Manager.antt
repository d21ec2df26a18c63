-- ===== src/Wal/Manager.antt =====
-- wal.go: the log file and the operations on it. What the operating system does with a write or a
-- sync, and whether a table storage opens, is an argument of the operation.
use masterkeeper.Base.{
  ℕ, ◌+◌, String, Bool, true, false, not, ◌&&◌, ◌||◌, Option, none, some, List, [], ◌∷◌, ◌++◌,
  length, take, if◌then◌else◌, string_eq,
}
use masterkeeper.Base.Dict.{Dict, get, put}
use masterkeeper.Base.Int.{ℤ}
use masterkeeper.Base.Result.{Result, ok, err}
use masterkeeper.Storage.{
  RecordPointer, TableStorage, Fault, succeeds, fails_after, append_records, new_table_storage,
  write_at,
}
use masterkeeper.Wal.Record.{
  WalRecord, op_begin_transaction, op_commit_transaction, op_rollback_transaction, write_record,
  write_records,
}

pub data DurabilityMode : Type 0 where
  durability_sync durability_batched durability_async : DurabilityMode

-- The channel `Done` of the Go struct is the place of the task in the results.
pub record WriteTask : Type 0 where
  pub tx_id : ℤ
  pub generation : ℤ
  pub wal_records : List WalRecord
  pub table_appends : Dict String (List (List ℕ))

-- A result of a task: `none` is an error.
abbrev pub WriteResult : Type 0
WriteResult = Option (Dict String (List RecordPointer))

pub record WalManager : Type 0 where
  -- the bytes of the log, and the offset that the next write goes to; `none` once it is closed
  pub wal_file : Option (List ℕ × ℕ)
  pub durability : DurabilityMode
  pub table_storage : Dict String TableStorage

-- A write to a file and the sync behind it.
pub record Io : Type 0 where
  pub write : Fault
  pub syncs : Bool

-- What happens to the calls of `processTasks`, those on tables by their names: `opens` is the bytes of
-- the file that is opened, or none where that fails.
pub record Faults : Type 0 where
  pub mutations : Io
  pub markers : Io
  pub opens : String → Option (List ℕ)
  pub appends : String → Fault
  pub table_syncs : String → Bool

pub data WalFailure : Type 0 where
  database_closed write_failed sync_failed : WalFailure

abbrev pub written_bytes : Fault → List ℕ → List ℕ
written_bytes succeeds bytes = bytes
written_bytes (fails_after n) bytes = take n bytes

abbrev succeeded : Fault → Bool
succeeded succeeds = true
succeeded (fails_after n) = false

unfoldable pub append_bytes : Fault → List ℕ × ℕ → List ℕ → List ℕ × ℕ
append_bytes fault (file, off) bytes =
    (write_at file off (written_bytes fault bytes), off + length (written_bytes fault bytes))

abbrev waits : DurabilityMode → Bool
waits durability_async = false
waits _ = true

-- A write and, unless the mode is asynchronous, a sync: whether both went well.
unfoldable pub io_ok : DurabilityMode → Io → Bool
io_ok mode io = succeeded io.write && (not (waits mode) || io.syncs)

-- The fields of the three records that the log itself makes.
abbrev pub marker : ℕ → WriteTask → WalRecord
marker type t = record {
  type = type;
  transaction_id = t.tx_id;
  generation = t.generation;
  payload = [];
}

-- Step 1 of `processTasks`: every task's begin record and its own records.
unfoldable pub mutations_of : List WriteTask → List WalRecord
mutations_of [] = []
mutations_of (t ∷ ts) = (marker op_begin_transaction t ∷ t.wal_records) ++ mutations_of ts

-- The storage of a table, opened on the bytes of its file where it is not open yet.
unfoldable pub resolve : Faults → Dict String TableStorage → String → Option TableStorage
resolve faults tables name = elim (get tables name) [
  | some s ↦ some s
  | none ↦ elim (faults.opens name) [ none ↦ none | some bytes ↦ some (new_table_storage bytes) ]
]

-- Step 3 for one task: its appends up to the first error, with the tables as they are left and the
-- names of those that were resolved.
unfoldable pub append_tables :
    Faults
    → Dict String (List (List ℕ))
    → Dict String TableStorage
    → List String
    → Dict String (List RecordPointer)
    → WriteResult × Dict String TableStorage × List String
append_tables faults [] tables modified pointers = (some pointers, tables, modified)
append_tables faults ((name, appends) ∷ rest) tables modified pointers =
    elim (resolve faults tables name) [
      | none ↦ (none, tables, modified)
      | some s ↦
          let (reply, s1) = append_records (faults.appends name) s appends in
          elim reply [
            | err x ↦ (none, put tables name s1, name ∷ modified)
            | ok ps ↦
                append_tables faults rest (put tables name s1) (name ∷ modified)
                  (put pointers name ps)
          ]
    ]

-- Step 3 for all of them; after a failure of the log no table is touched.
unfoldable pub append_tasks :
    Bool
    → Faults
    → List WriteTask
    → Dict String TableStorage
    → List String
    → List WriteResult × Dict String TableStorage × List String
append_tasks failed faults [] tables modified = ([], tables, modified)
append_tasks failed faults (t ∷ ts) tables modified =
    let first =
      if failed
      then (none, tables, modified)
      else append_tables faults t.table_appends tables modified [] in
    let rest = append_tasks failed faults ts first.1 first.2 in (first.0 ∷ rest.0, rest.1, rest.2)

-- Step 4: whether every modified table is synced.
unfoldable pub tables_ok : Faults → List String → Bool
tables_ok faults [] = true
tables_ok faults (name ∷ rest) = faults.table_syncs name && tables_ok faults rest

-- Step 5: a commit marker for a task without an error, else a rollback marker.
abbrev pub marker_of : Bool → WriteTask → WriteResult → WalRecord
marker_of failed t none = marker op_rollback_transaction t
marker_of failed t (some ps) =
    if failed then marker op_rollback_transaction t else marker op_commit_transaction t

unfoldable pub markers_of : Bool → List WriteTask → List WriteResult → List WalRecord
markers_of failed [] results = []
markers_of failed (t ∷ ts) [] = []
markers_of failed (t ∷ ts) (r ∷ rs) = marker_of failed t r ∷ markers_of failed ts rs

-- Step 7: what the tasks are told.
unfoldable pub complete : Bool → List WriteResult → List WriteResult
complete failed [] = []
complete failed (r ∷ rs) = (if failed then none else r) ∷ complete failed rs

module _ (crc : List ℕ → ℕ) where
  -- `processTasks` for an open log.
  unfoldable pub process_open :
      Faults → WalManager → List ℕ × ℕ → List WriteTask → List WriteResult × WalManager
  process_open faults m log tasks =
      let log1 = append_bytes faults.mutations.write log (write_records crc (mutations_of tasks)) in
      let failed1 = not (io_ok m.durability faults.mutations) in
      let appended = append_tasks failed1 faults tasks m.table_storage [] in
      let failed2 = failed1 || (waits m.durability && not (tables_ok faults appended.2)) in
      let log2 =
        append_bytes faults.markers.write log1
          (write_records crc (markers_of failed2 tasks appended.0)) in
      let failed3 = failed2 || not (io_ok m.durability faults.markers) in
      (complete failed3 appended.0, record m { wal_file = some log2; table_storage = appended.1 })

  -- `none` is the crash on a closed log.
  unfoldable pub process_tasks :
      Faults → WalManager → List WriteTask → Option (List WriteResult × WalManager)
  process_tasks faults m [] = some ([], m)
  process_tasks faults m (t ∷ ts) = elim m.wal_file [
    | none ↦ none
    | some log ↦ some (process_open faults m log (t ∷ ts))
  ]

  unfoldable pub append_rollback_marker :
      Io → WalManager → ℤ → ℤ → List ℕ → Result WalFailure (Unit {0}) × WalManager
  append_rollback_marker io m id gen reason = elim m.wal_file [
    | none ↦ (err database_closed, m)
    | some log ↦
        let r : WalRecord = record {
          type = op_rollback_transaction;
          transaction_id = id;
          generation = gen;
          payload = reason;
        } in
        let m1 : WalManager = record m {
          wal_file = some (append_bytes io.write log (write_record crc r));
        } in
        if not (succeeded io.write) then (err write_failed, m1) else elim m.durability [
          | durability_sync ↦ if io.syncs then (ok tt, m1) else (err sync_failed, m1)
          | _ ↦ (ok tt, m1)
        ]
  ]

-- `Truncate`, with the outcome of its last step; the two before it are taken to succeed.
unfoldable pub truncate : Bool → WalManager → Result WalFailure (Unit {0}) × WalManager
truncate syncs m = elim m.wal_file [
  | none ↦ (err database_closed, m)
  | some log ↦ (if syncs then ok tt else err sync_failed, record m { wal_file = some ([], 0) })
]
