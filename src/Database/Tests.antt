-- ===== src/Database/Tests.antt =====
-- Runs of the recovery and of a transaction.
use masterkeeper.Base.{
  ℕ, ◌%◌, ◌^◌, ◌<◌, length, arith, Bool, true, false, not, ◌&&◌, List, [], ◌∷◌, ◌≡◌, refl, some,
}
use masterkeeper.Base.Int.{ℤ, pos}
use masterkeeper.Base.Result.{ok}
use masterkeeper.Storage.{succeeds}
use masterkeeper.Wal.Reader.{read_all_records}
use masterkeeper.Wal.Manager.{
  Faults, WriteTask, WalManager, durability_batched, io_ok, append_tables, append_tasks, tables_ok,
  complete, process_open, process_tasks,
}
use masterkeeper.Database.Durable.{IsTask, active_commits-process_tasks}
use masterkeeper.Wal.Record.{
  write_records, WalRecord, op_commit_transaction, op_rollback_transaction,
}
use masterkeeper.Database.Recovery.{elem, has, active_commits, elem-active_commits}
use masterkeeper.Database.Lifecycle.{
  Database, live, publishes, call_commit, call_locking, call_set_rollback_only, returns_nil, Reply,
  run_transaction,
}
use masterkeeper.Database.Release.{run_transaction-releases}

abbrev entry : ℕ → ℕ → WalRecord
entry op id = record { type = op; transaction_id = pos id; generation = pos 1; payload = [] }

abbrev log : List WalRecord
log = entry 0 4 ∷ entry 0 5 ∷ entry 10 4 ∷ entry 11 5 ∷ []

abbrev unsorted : (ℤ → ℤ → Bool) → List ℤ → List ℤ
unsorted less ids = ids

elem-active_commits_example :
    elem (pos 4) (active_commits unsorted log)
    ≡ (has op_commit_transaction (pos 4) log && not (has op_rollback_transaction (pos 4) log))
elem-active_commits_example = elem-active_commits unsorted (λ less ids id. refl) log (pos 4)

abbrev idle : Database
idle = record {
  write_lock = true;
  active_goroutine = 0;
  closed = false;
  published = 0;
  rollback_markers = 0;
}

run_transaction-releases_example :
    (reply : Reply) × (after : Database) × (run_transaction live 7 true publishes
        (call_set_rollback_only ∷ call_commit true publishes ∷ call_locking ∷ [])
        returns_nil
        idle
      ≡ some (reply, after))
    × (after.write_lock ≡ true)
run_transaction-releases_example =
    run_transaction-releases live 7 true publishes
      (call_set_rollback_only ∷ call_commit true publishes ∷ call_locking ∷ []) returns_nil idle
      refl refl

abbrev byte_count : List ℕ → ℕ
byte_count bytes = length bytes % 2 ^ 32

byte_count_lt : (bytes : List ℕ) → byte_count bytes < 2 ^ 32
byte_count_lt bytes = omega arith

abbrev no_faults : Faults
no_faults = record {
  mutations = record { write = succeeds; syncs = true };
  markers = record { write = succeeds; syncs = true };
  opens = λ name. some [];
  appends = λ name. succeeds;
  table_syncs = λ name. true;
}

abbrev one_task : WriteTask
one_task = record {
  tx_id = pos 7;
  generation = pos 1;
  wal_records = entry 4 7 ∷ [];
  table_appends = [];
}

one_task-IsTask : IsTask one_task
one_task-IsTask = record {
  id = omega arith;
  gen = omega arith;
  records = (
    record {
      known = omega arith;
      id = omega arith;
      gen = omega arith;
      bytes = tt;
      fits = omega arith;
    },
    tt,
  );
}

abbrev empty_log : WalManager
empty_log = record { wal_file = some ([], 0); durability = durability_batched; table_storage = [] }

abbrev written_log : WalManager
written_log = (process_open byte_count no_faults empty_log ([], 0) (one_task ∷ [])).1

active_commits-process_tasks_example :
    (log : List ℕ) × (rs : List WalRecord) × (written_log.wal_file ≡ some (log, length log))
    × (read_all_records byte_count log ≡ ok (rs, []))
    × (elem (pos 7) (active_commits unsorted rs) ≡ not (has op_rollback_transaction (pos 7) rs))
unfolding process_tasks process_open complete append_tasks append_tables io_ok tables_ok
    write_records
active_commits-process_tasks_example =
    active_commits-process_tasks byte_count byte_count_lt unsorted (λ less ids id. refl) no_faults
      empty_log [] (one_task ∷ []) 0 one_task [] (some [] ∷ []) written_log tt (one_task-IsTask, tt)
      refl refl refl refl
