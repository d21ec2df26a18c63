-- ===== src/Wal/Marker.antt =====
-- `AppendRollbackMarker`, and the log that is read after it.
use masterkeeper.Base.{
  ℕ, ◌<◌, ◌^◌, true, some, List, [], ◌∷◌, ◌++◌, ◌≡◌, refl, sym, ap, ◌∙◌, length, All, arith,
}
use mathlib.Core.List.{append-nil}
use masterkeeper.Base.Int.{ℤ}
use masterkeeper.Base.Result.{ok}
use masterkeeper.Storage.{succeeds}
use masterkeeper.Wal.Record.{
  WalRecord, IsRecord, op_rollback_transaction, write_record, write_records,
}
use masterkeeper.Wal.Reader.{read_all_records}
use masterkeeper.Wal.RoundTrip.{read_all_records-write_records}
use masterkeeper.Wal.Manager.{WalManager, append_rollback_marker, append_bytes}
use masterkeeper.Wal.Durability.{append_bytes_end, write_records-append}

All-snoc {ℓ} :
    {A : Type ℓ} (P : A → Type 0) (xs : List A) (x : A) → All P xs → P x → All P (xs ++ x ∷ [])
All-snoc P [] x h p = (p, tt)
All-snoc P (y ∷ ys) x h p = (h.0, All-snoc P ys x h.1 p)

abbrev pub rollback_record : ℤ → ℤ → List ℕ → WalRecord
rollback_record id gen reason = record {
  type = op_rollback_transaction;
  transaction_id = id;
  generation = gen;
  payload = reason;
}

module _ (crc : List ℕ → ℕ) (m : WalManager) (rs : List WalRecord) (id gen : ℤ)
    (reason : List ℕ) where
  abbrev log : List ℕ
  log = write_records crc rs

  grown :
      append_bytes succeeds (log, length log) (write_record crc (rollback_record id gen reason)) ≡ (
        write_records crc (rs ++ rollback_record id gen reason ∷ []),
        length (write_records crc (rs ++ rollback_record id gen reason ∷ [])),
      )
  unfolding write_records
  grown =
      append_bytes_end log (write_record crc (rollback_record id gen reason)) (length log) refl
      ∙ ap (λ b. (b, length b))
          (ap (λ t. log ++ t) (sym (append-nil (write_record crc (rollback_record id gen reason))))
            ∙ sym (write_records-append crc rs (rollback_record id gen reason ∷ [])))

  -- Where checksums fit 32 bits and the write and the sync succeed: on an open log of whole well-formed
  -- records, with the offset at its end, `AppendRollbackMarker` with a transaction, generation and
  -- reason in range reports no error, and `ReadAllRecords` then returns the records and the marker.
  pub read_all_records-append_rollback_marker :
      ((bytes : List ℕ) → crc bytes < 2 ^ 32)
      → m.wal_file ≡ some (log, length log)
      → All IsRecord rs
      → IsRecord (rollback_record id gen reason)
      → ((append_rollback_marker crc (record { write = succeeds; syncs = true }) m id gen reason).0
          ≡ ok tt)
        × (after : List ℕ) × ((append_rollback_marker crc
              (record { write = succeeds; syncs = true })
              m
              id
              gen
              reason).1.wal_file
            ≡ some (after, length after))
        × (read_all_records crc after ≡ ok (rs ++ rollback_record id gen reason ∷ [], []))
  unfolding append_rollback_marker
  read_all_records-append_rollback_marker crc_lt open_ valids valid = (
    ground (arith, open_),
    write_records crc (rs ++ rollback_record id gen reason ∷ []),
    ground (arith, open_, grown),
    read_all_records-write_records crc crc_lt _
        (All-snoc IsRecord rs (rollback_record id gen reason) valids valid),
  )
