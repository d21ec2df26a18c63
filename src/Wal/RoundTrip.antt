-- ===== src/Wal/RoundTrip.antt =====
-- What `writeRecordToBuffer` writes, `ReadAllRecords` reads back.
use masterkeeper.Base.{
  ℕ, zero, suc, ◌+◌, ◌-◌, ◌%◌, ◌^◌, ◌≤◌, ◌<◌, List, [], ◌∷◌, ◌++◌, ◌≡◌, refl, sym, ap, ◌∙◌, length,
  take, drop, All, arith, length-append, take-append, drop-append,
}
use mathlib.Core.List.{append-nil, append_assoc}
use native.Mathlib.Nat.{zero-add, suc-add}
use masterkeeper.Base.Int.{unsigned64, signed64-unsigned64, unsigned64-lt, signed32-pos}
use masterkeeper.Base.Bytes.{be, from_be-be, from_be-one, length-be}
use masterkeeper.Base.Result.{ok}
use masterkeeper.Wal.Record.{
  WalRecord, IsRecord, wal_magic, hashed, checksum, write_record, write_records, header_tail,
}
use masterkeeper.Wal.Reader.{
  got, read_full, next, check_payload, read_payload, read_type, read_step, read_loop,
  read_all_records,
}

-- A read of as many bytes as stand in front.
pub read_full-append : (n : ℕ) (xs ys : List ℕ) → n ≡ length xs → read_full n (xs ++ ys) ≡ got xs ys
unfolding read_full
read_full-append zero [] ys e = refl
read_full-append zero (x ∷ xs) ys e = absurd (omega arith)
read_full-append (suc n) [] ys e = absurd (omega arith)
read_full-append (suc n) (x ∷ xs) ys e = ground (
  arith,
  length-append (x ∷ xs) ys,
  ap (λ k. take k ((x ∷ xs) ++ ys)) e ∙ take-append (x ∷ xs) ys,
  ap (λ k. drop k ((x ∷ xs) ++ ys)) e ∙ drop-append (x ∷ xs) ys,
)

pub read_full-be : (w n : ℕ) (ys : List ℕ) → read_full w (be w n ++ ys) ≡ got (be w n) ys
read_full-be w n ys = read_full-append w (be w n) ys (sym (length-be w n))

module _ (crc : List ℕ → ℕ) (crc_lt : (bytes : List ℕ) → crc bytes < 2 ^ 32) (r : WalRecord)
    (valid : IsRecord r) (rest : List ℕ) where
  abbrev id : ℕ
  id = unsigned64 r.transaction_id

  abbrev gen : ℕ
  gen = unsigned64 r.generation

  read_payload-write :
      read_payload crc r.type id gen
        (length r.payload % 2 ^ 32)
        (checksum crc r)
        (r.payload ++ rest)
      ≡ next r rest
  unfolding read_payload check_payload
  read_payload-write = ground (
    arith,
    valid.fits,
    length-append r.payload rest,
    read_full-append (length r.payload) r.payload rest refl,
    signed64-unsigned64 r.transaction_id valid.id,
    signed64-unsigned64 r.generation valid.gen,
    signed32-pos (length r.payload),
  )

  -- The fields of the header, with the payload and what follows behind them.
  abbrev fields : List ℕ
  fields =
      be 8 id
      ++ (be 8 gen
          ++ (be 4 (length r.payload % 2 ^ 32) ++ (be 4 (checksum crc r) ++ (r.payload ++ rest))))

  header_tail-append : header_tail crc r ++ rest ≡ r.type ∷ fields
  header_tail-append = simp append_assoc

  read_type-write : read_type crc (r.type ∷ []) fields ≡ next r rest
  unfolding read_type
  read_type-write = ground (
    arith,
    valid.known,
    from_be-one r.type,
    read_full-be 8 id (
        be 8 gen
        ++ (be 4 (length r.payload % 2 ^ 32) ++ (be 4 (checksum crc r) ++ (r.payload ++ rest)))),
    read_full-be 8 gen
        (be 4 (length r.payload % 2 ^ 32) ++ (be 4 (checksum crc r) ++ (r.payload ++ rest))),
    read_full-be 4 (length r.payload % 2 ^ 32) (be 4 (checksum crc r) ++ (r.payload ++ rest)),
    read_full-be 4 (checksum crc r) (r.payload ++ rest),
    from_be-be 8 id (unsigned64-lt r.transaction_id),
    from_be-be 8 gen (unsigned64-lt r.generation),
    from_be-be 4 (length r.payload % 2 ^ 32) (omega arith),
    from_be-be 4 (checksum crc r) (crc_lt (hashed r.type id gen r.payload)),
    read_payload-write,
  )

  -- One round on the bytes of a record takes the record, whatever follows it.
  pub read_step-write : read_step crc (write_record crc r ++ rest) ≡ next r rest
  unfolding read_step write_record
  read_step-write =
      ap (read_step crc) (
        append_assoc (be 4 wal_magic) (header_tail crc r) rest
        ∙ ap (λ t. be 4 wal_magic ++ t) header_tail-append)
      ∙ ground (
        arith,
        read_full-be 4 wal_magic (r.type ∷ fields),
        from_be-be 4 wal_magic (omega arith),
        read_full-append 1 (r.type ∷ []) fields (omega arith),
        read_type-write,
      )

module _ (crc : List ℕ → ℕ) (crc_lt : (bytes : List ℕ) → crc bytes < 2 ^ 32) where
  pub read_loop-write :
      (rs : List WalRecord) (fuel : ℕ) (acc : List WalRecord) (tail : List ℕ)
      → All IsRecord rs
      → read_loop crc (length rs + fuel) (write_records crc rs ++ tail) acc
        ≡ read_loop crc fuel tail (acc ++ rs)
  unfolding write_records read_loop
  read_loop-write [] fuel acc tail h = rw (zero-add fuel, append-nil acc)
  read_loop-write (r ∷ rs) fuel acc tail h =
      rw
        (
          suc-add,
          append_assoc (write_record crc r) (write_records crc rs) tail,
          read_step-write crc crc_lt r h.0 (write_records crc rs ++ tail),
          read_loop,
        )
        (read_loop-write rs fuel (acc ++ r ∷ []) tail h.1 ∙ rw (append_assoc acc (r ∷ []) rs))

  length-write_record : (r : WalRecord) → 4 ≤ length (write_record crc r)
  unfolding write_record
  length-write_record r =
      omega (arith, length-append (be 4 wal_magic) (header_tail crc r), length-be 4 wal_magic)

  length-write_records : (rs : List WalRecord) → length rs ≤ length (write_records crc rs)
  unfolding write_records
  length-write_records [] = omega arith
  length-write_records (r ∷ rs) = omega (
    arith,
    length-append (write_record crc r) (write_records crc rs),
    length-write_record r,
    length-write_records rs,
  )

  -- Behind whole records the scan goes on with them read and a round left at least.
  pub read_all_records-write :
      (rs : List WalRecord) (tail : List ℕ)
      → All IsRecord rs
      → (k : ℕ) × (read_all_records crc (write_records crc rs ++ tail)
          ≡ read_loop crc (suc k) tail rs)
  unfolding read_all_records
  read_all_records-write rs tail h =
      let input = write_records crc rs ++ tail in
      let k : ℕ = length input - length rs in
      let e : suc (length input) ≡ length rs + suc k =
        omega (arith, length-write_records rs, length-append (write_records crc rs) tail) in
      (k, ap (λ n. read_loop crc n input []) e ∙ read_loop-write rs (suc k) [] tail h)

  -- Where checksums fit 32 bits, a log of whole well-formed records is read back record by record,
  -- and the file offset is left at its end.
  pub read_all_records-write_records :
      (rs : List WalRecord)
      → All IsRecord rs
      → read_all_records crc (write_records crc rs) ≡ ok (rs, [])
  unfolding read_loop read_step read_full
  read_all_records-write_records rs h =
      let (k, e) = read_all_records-write rs [] h in
      ap (read_all_records crc) (sym (append-nil (write_records crc rs))) ∙ e
