-- ===== src/Database/Durable.antt =====
-- A commit that is reported is replayed: from `processTasks` over the bytes of the log to `recover`.
use masterkeeper.Base.{
  ℕ, zero, suc, ◌≤◌, ◌<◌, ◌^◌, Bool, true, false, not, ◌&&◌, ◌||◌, none, some, List, [], ◌∷◌, ◌++◌,
  ◌≡◌, refl, sym, ap, ◌∙◌, length, All, get_elem?, arith, nat_eqb, ◌==◌,
}
use mathlib.Core.Option.{none-ne-some}
use masterkeeper.Base.Dict.{Dict, equals_refl}
use masterkeeper.Base.Int.{ℤ, IsInt64}
use masterkeeper.Base.Result.{ok}
use masterkeeper.Storage.{RecordPointer}
use masterkeeper.Wal.Record.{
  WalRecord, IsRecord, op_commit_transaction, op_rollback_transaction, op_begin_transaction,
  write_records,
}
use masterkeeper.Wal.Reader.{read_all_records}
use masterkeeper.Wal.RoundTrip.{read_all_records-write_records}
use masterkeeper.Wal.Manager.{
  WalManager, WriteTask, WriteResult, Faults, marker, markers_of, mutations_of, process_tasks,
}
use masterkeeper.Wal.Durability.{reported-markers, write_records-append}
use masterkeeper.Database.Recovery.{int_eq, elem, has, active_commits, elem-active_commits}

-- A task whose numbers are in range and whose records are well-formed.
pub record IsTask (t : WriteTask) : Type 0 where
  pub id : IsInt64 t.tx_id
  pub gen : IsInt64 t.generation
  pub records : All IsRecord t.wal_records

All-append : (xs ys : List WalRecord) → All IsRecord xs → All IsRecord ys → All IsRecord (xs ++ ys)
All-append [] ys h k = k
All-append (x ∷ xs) ys h k = (h.0, All-append xs ys h.1 k)

marker-IsRecord : (type : ℕ) (t : WriteTask) → type ≤ 11 → IsTask t → IsRecord (marker type t)
marker-IsRecord type t known h = record {
  known = known;
  id = h.id;
  gen = h.gen;
  bytes = tt;
  fits = omega arith;
}

mutations_of-IsRecord : (ts : List WriteTask) → All IsTask ts → All IsRecord (mutations_of ts)
unfolding mutations_of
mutations_of-IsRecord [] h = tt
mutations_of-IsRecord (t ∷ ts) h =
    All-append (marker op_begin_transaction t ∷ t.wal_records) (mutations_of ts)
      (marker-IsRecord op_begin_transaction t (omega arith) h.0, h.0.records)
      (mutations_of-IsRecord ts h.1)

markers_of-IsRecord :
    (ts : List WriteTask) (rs : List WriteResult)
    → All IsTask ts
    → All IsRecord (markers_of false ts rs)
unfolding markers_of
markers_of-IsRecord [] rs h = tt
markers_of-IsRecord (t ∷ ts) [] h = tt
markers_of-IsRecord (t ∷ ts) (none ∷ rs) h =
    (marker-IsRecord op_rollback_transaction t (omega arith) h.0, markers_of-IsRecord ts rs h.1)
markers_of-IsRecord (t ∷ ts) (some ps ∷ rs) h =
    (marker-IsRecord op_commit_transaction t (omega arith) h.0, markers_of-IsRecord ts rs h.1)

has-append :
    (op : ℕ) (id : ℤ) (xs ys : List WalRecord)
    → has op id (xs ++ ys) ≡ (has op id xs || has op id ys)
has-append op id [] ys = refl
has-append op id (x ∷ xs) ys =
    ap (λ b. (nat_eqb x.type op && (x.transaction_id == id)) || b) (has-append op id xs ys)
    ∙ or_assoc (nat_eqb x.type op && (x.transaction_id == id)) (has op id xs) (has op id ys)
  where
    or_assoc : (a b c : Bool) → (a || (b || c)) ≡ ((a || b) || c)
    or_assoc a b c = ground arith

or_true : (b : Bool) → (b || true) ≡ true
or_true b = ground arith

has_at :
    (ts : List WalRecord) (i : ℕ) (t : WriteTask)
    → get_elem? ts i ≡ some (marker op_commit_transaction t)
    → has op_commit_transaction t.tx_id ts ≡ true
has_at [] i t e = absurd (none-ne-some _ e)
has_at (x ∷ xs) zero t e = ground (arith, e, equals_refl t.tx_id)
has_at (x ∷ xs) (suc i) t e =
    ap (λ b. (nat_eqb x.type op_commit_transaction && (x.transaction_id == t.tx_id)) || b)
      (has_at xs i t e)
    ∙ or_true _

module _ (crc : List ℕ → ℕ) (crc_lt : (bytes : List ℕ) → crc bytes < 2 ^ 32)
    (sort : (ℤ → ℤ → Bool) → List ℤ → List ℤ)
    (keeps : (less : ℤ → ℤ → Bool) (ids : List ℤ) (id : ℤ)
      → elem id (sort less ids) ≡ elem id ids) where
  -- Where checksums fit 32 bits and the sort keeps the elements: take an open log of whole well-formed
  -- records, with the offset at its end, and a batch of well-formed tasks. If `processTasks` tells a
  -- task of no error, whatever else fails, then `ReadAllRecords` on the log afterwards gives records
  -- by which `recover` replays the transaction, unless one of them is a rollback record of it.
  pub active_commits-process_tasks :
      (faults : Faults) (m : WalManager) (old : List WalRecord) (tasks : List WriteTask) (i : ℕ)
      (t : WriteTask) (ps : Dict _ (List RecordPointer)) (results : List WriteResult)
      (after : WalManager)
      → All IsRecord old
      → All IsTask tasks
      → m.wal_file ≡ some (write_records crc old, length (write_records crc old))
      → process_tasks crc faults m tasks ≡ some (results, after)
      → get_elem? tasks i ≡ some t
      → get_elem? results i ≡ some (some ps)
      → (log : List ℕ) × (rs : List WalRecord) × (after.wal_file ≡ some (log, length log))
        × (read_all_records crc log ≡ ok (rs, []))
        × (elem t.tx_id (active_commits sort rs) ≡ not (has op_rollback_transaction t.tx_id rs))
  active_commits-process_tasks faults m old tasks i t ps results after valid_old valid_tasks open_
        ran e g =
      let (replies, at_i, grown) =
        reported-markers crc faults m (write_records crc old) tasks i t ps results after open_ ran e
          g in
      let new = mutations_of tasks ++ markers_of false tasks replies in
      let valid = All-append old new valid_old (
        All-append (mutations_of tasks) _ (mutations_of-IsRecord tasks valid_tasks)
          (markers_of-IsRecord tasks replies valid_tasks)) in
      let committed : has op_commit_transaction t.tx_id (old ++ new) ≡ true =
        has-append op_commit_transaction t.tx_id old new
        ∙ ap (λ b. has op_commit_transaction t.tx_id old || b)
            (has-append op_commit_transaction t.tx_id (mutations_of tasks) _
              ∙ ap (λ b. has op_commit_transaction t.tx_id (mutations_of tasks) || b)
                  (has_at _ i t at_i)
              ∙ or_true _)
        ∙ or_true _ in
      (
        write_records crc old ++ write_records crc new,
        old ++ new,
        grown,
        ap (read_all_records crc) (sym (write_records-append crc old new))
            ∙ read_all_records-write_records crc crc_lt (old ++ new) valid,
        elem-active_commits sort keeps (old ++ new) t.tx_id
            ∙ ap (λ b. b && not (has op_rollback_transaction t.tx_id (old ++ new))) committed,
      )
