-- ===== src/Wal/Tests.antt =====
-- Runs of the log on a small record, with a checksum that is the number of bytes.
use masterkeeper.Base.{
  ℕ, ◌%◌, ◌^◌, ◌<◌, List, [], ◌∷◌, ◌++◌, ◌≡◌, ◌≢◌, refl, length, take, All, arith, inr, true, some,
  get_elem?,
}
use masterkeeper.Base.Int.{pos}
use masterkeeper.Base.Bytes.{be, from_be, from_be_acc, IsByte}
use masterkeeper.Base.Result.{ok, err}
use masterkeeper.Storage.{succeeds}
use masterkeeper.Wal.Manager.{
  append_rollback_marker, Faults, WriteTask, WalManager, durability_sync, marker, mutations_of,
  io_ok, append_tables, append_tasks, tables_ok, complete, process_open, process_tasks,
}
use masterkeeper.Wal.Durability.{process_tasks-reported}
use masterkeeper.Wal.Marker.{rollback_record, read_all_records-append_rollback_marker}
use masterkeeper.Wal.Record.{
  op_commit_transaction, WalRecord, IsRecord, write_record, write_records,
}
use masterkeeper.Wal.Reader.{
  short_magic, out_of_fuel, read_full, check_payload, read_payload, read_type, read_step, read_loop,
  read_all_records,
}
use masterkeeper.Wal.RoundTrip.{read_all_records-write_records}
use masterkeeper.Wal.Torn.{read_all_records-torn, read_all_records-torn_magic}
use masterkeeper.Wal.Scan.{read_all_records_sound, read_all_records-ends}

abbrev count : List ℕ → ℕ
count bytes = length bytes % 2 ^ 32

count_lt : (bytes : List ℕ) → count bytes < 2 ^ 32
count_lt bytes = omega arith

abbrev begin : WalRecord
begin = record { type = 0; transaction_id = pos 7; generation = pos 1; payload = [] }

abbrev removal : WalRecord
removal = record { type = 4; transaction_id = pos 7; generation = pos 1; payload = 1 ∷ 255 ∷ [] }

begin-IsRecord : IsRecord begin
begin-IsRecord = record {
  known = omega arith;
  id = omega arith;
  gen = omega arith;
  bytes = tt;
  fits = omega arith;
}

removal-IsRecord : IsRecord removal
removal-IsRecord = record {
  known = omega arith;
  id = omega arith;
  gen = omega arith;
  bytes = (omega arith, (omega arith, tt));
  fits = omega arith;
}

read_all_records-write_records_example :
    read_all_records count (write_records count (begin ∷ removal ∷ []))
    ≡ ok (begin ∷ removal ∷ [], [])
read_all_records-write_records_example =
    read_all_records-write_records count count_lt (begin ∷ removal ∷ [])
      (begin-IsRecord, (removal-IsRecord, tt))

read_all_records-torn_example :
    (rest : List ℕ) × (read_all_records count
        (write_records count (begin ∷ []) ++ take 29 (write_record count removal))
      ≡ ok (begin ∷ [], rest))
unfolding write_record be
read_all_records-torn_example =
    read_all_records-torn count count_lt removal removal-IsRecord (begin ∷ []) (begin-IsRecord, tt)
      29 (omega arith) (inr (omega arith))

read_all_records-torn_magic_example :
    read_all_records count (write_records count (begin ∷ []) ++ take 2 (write_record count removal))
    ≡ err short_magic
read_all_records-torn_magic_example =
    read_all_records-torn_magic count count_lt removal removal-IsRecord (begin ∷ [])
      (begin-IsRecord, tt) 2 (omega arith) (omega arith)

-- A file with one record.
abbrev log : List ℕ
log =
    82 ∷ 77 ∷ 87 ∷ 76 ∷ 0 ∷ 0 ∷ 0 ∷ 0 ∷ 0 ∷ 0 ∷ 0 ∷ 0 ∷ 7 ∷ 0 ∷ 0 ∷ 0 ∷ 0 ∷ 0 ∷ 0 ∷ 0 ∷ 1 ∷ 0 ∷ 0
    ∷ 0 ∷ 0 ∷ 0 ∷ 0 ∷ 0 ∷ 17 ∷ []

log-IsByte : All IsByte log
log-IsByte = ground arith

read_all_records_sound_example :
    All IsRecord (begin ∷ []) × ((tail : List ℕ) × (log ≡ write_records count (begin ∷ []) ++ tail))
unfolding read_all_records read_loop read_step read_full read_type read_payload check_payload
    from_be from_be_acc be
read_all_records_sound_example = read_all_records_sound count log (begin ∷ []) [] log-IsByte refl

read_all_records-ends_example : read_all_records count (82 ∷ 77 ∷ 87 ∷ []) ≢ err out_of_fuel
read_all_records-ends_example =
    read_all_records-ends count (82 ∷ 77 ∷ 87 ∷ []) (omega arith, (omega arith, (omega arith, tt)))

abbrev calm : Faults
calm = record {
  mutations = record { write = succeeds; syncs = true };
  markers = record { write = succeeds; syncs = true };
  opens = λ name. some [];
  appends = λ name. succeeds;
  table_syncs = λ name. true;
}

abbrev task : WriteTask
task = record { tx_id = pos 7; generation = pos 1; wal_records = removal ∷ []; table_appends = [] }

abbrev manager : WalManager
manager = record {
  wal_file = some (log, length log);
  durability = durability_sync;
  table_storage = [];
}

abbrev after_task : WalManager
after_task = (process_open count calm manager (log, length log) (task ∷ [])).1

process_tasks-reported_example :
    (marks : List WalRecord) × (get_elem? marks 0 ≡ some (marker op_commit_transaction task))
    × (after_task.wal_file
        ≡ some (
          log ++ write_records count (mutations_of (task ∷ []) ++ marks),
          length (log ++ write_records count (mutations_of (task ∷ []) ++ marks)),
        ))
unfolding process_tasks process_open complete append_tasks append_tables io_ok tables_ok
process_tasks-reported_example =
    process_tasks-reported count calm manager log (task ∷ []) 0 task [] (some [] ∷ []) after_task
      refl refl refl refl

abbrev reopened : WalManager
reopened = record {
  wal_file = some (write_records count (begin ∷ []), length (write_records count (begin ∷ [])));
  durability = durability_sync;
  table_storage = [];
}

read_all_records-append_rollback_marker_example :
    ((append_rollback_marker count
        (record { write = succeeds; syncs = true })
        reopened
        (pos 7)
        (pos 2)
        (65 ∷ [])).0
      ≡ ok tt)
    × (after : List ℕ) × ((append_rollback_marker count
          (record { write = succeeds; syncs = true })
          reopened
          (pos 7)
          (pos 2)
          (65 ∷ [])).1.wal_file
        ≡ some (after, length after))
    × (read_all_records count after
        ≡ ok (begin ∷ rollback_record (pos 7) (pos 2) (65 ∷ []) ∷ [], []))
read_all_records-append_rollback_marker_example =
    read_all_records-append_rollback_marker count reopened (begin ∷ []) (pos 7) (pos 2) (65 ∷ [])
      count_lt refl (begin-IsRecord, tt)
      (record {
        known = omega arith;
        id = omega arith;
        gen = omega arith;
        bytes = (omega arith, tt);
        fits = omega arith;
      })
