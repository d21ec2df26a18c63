-- ===== src/Wal/Record.antt =====
-- wal.go: a record of the log and `writeRecordToBuffer`.
use masterkeeper.Base.{ℕ, ◌*◌, ◌≤◌, ◌^◌, List, [], ◌∷◌, ◌++◌, length, All, ◌%◌}
use masterkeeper.Base.Int.{ℤ, unsigned64, IsInt64}
use masterkeeper.Base.Bytes.{be, IsByte}

abbrev pub wal_magic : ℕ
wal_magic = 0x524d574c

abbrev pub op_begin_transaction : ℕ
op_begin_transaction = 0

abbrev pub op_commit_transaction : ℕ
op_commit_transaction = 10

abbrev pub op_rollback_transaction : ℕ
op_rollback_transaction = 11

-- `type` is the byte of the operation, 0 to 11.
pub record WalRecord : Type 0 where
  pub type : ℕ
  pub transaction_id : ℤ
  pub generation : ℤ
  pub payload : List ℕ

-- The values that the fields of the Go struct can have, with an operation of the twelve that are
-- named and a payload that the reader accepts.
pub record IsRecord (r : WalRecord) : Type 0 where
  pub known : r.type ≤ 11
  pub id : IsInt64 r.transaction_id
  pub gen : IsInt64 r.generation
  pub bytes : All IsByte r.payload
  pub fits : length r.payload ≤ 1024 * 1024 * 64

-- The bytes that the checksum is taken over.
abbrev pub hashed : ℕ → ℕ → ℕ → List ℕ → List ℕ
hashed type id gen payload = type ∷ be 8 id ++ (be 8 gen ++ payload)

-- `crc` is `crc32.Checksum` with the Castagnoli table.
module _ (crc : List ℕ → ℕ) where
  abbrev pub checksum : WalRecord → ℕ
  checksum r = crc (hashed r.type (unsigned64 r.transaction_id) (unsigned64 r.generation) r.payload)

  abbrev pub header_tail : WalRecord → List ℕ
  header_tail r =
      r.type ∷ be 8 (unsigned64 r.transaction_id)
      ++ (be 8 (unsigned64 r.generation)
          ++ (be 4 (length r.payload % 2 ^ 32) ++ (be 4 (checksum r) ++ r.payload)))

  unfoldable pub write_record : WalRecord → List ℕ
  write_record r = be 4 wal_magic ++ header_tail r

  unfoldable pub write_records : List WalRecord → List ℕ
  write_records [] = []
  write_records (r ∷ rs) = write_record r ++ write_records rs
