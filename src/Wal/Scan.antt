-- ===== src/Wal/Scan.antt =====
-- `ReadAllRecords` on any bytes: its loop ends, and what it returns stands in the log.
use masterkeeper.Base.{
  ℕ, zero, suc, ◌<◌, List, [], ◌∷◌, ◌++◌, ◌≡◌, ◌≢◌, refl, sym, ap, ◌∙◌, length, All, arith,
  length-append,
}
use mathlib.Core.Path.{subst}
use mathlib.Core.List.{append-nil, append_assoc}
use masterkeeper.Base.Bytes.{be, from_be, length-be, IsByte}
use masterkeeper.Base.Result.{ok, err}
use masterkeeper.Wal.Record.{
  WalRecord, IsRecord, wal_magic, write_record, write_records, header_tail,
}
use masterkeeper.Base.Int.{ℤ, pos, negsuc, signed32}
use masterkeeper.Wal.Reader.{
  Read, eof, unexpected_eof, got, read_full, Step, stop, fail, next, out_of_fuel, or_stop,
  check_payload, read_payload, read_type, read_step, read_loop, read_all_records,
}
use masterkeeper.Wal.Step.{Written, read_step-next}

module _ (crc : List ℕ → ℕ) where
  -- What a scan that began with `acc` returns, of the input behind it.
  Scanned : List ℕ → List WalRecord → List WalRecord → Type 0
  Scanned input acc rs =
      (found : List WalRecord) × (rs ≡ acc ++ found)
      × All IsRecord found
      × ((tail : List ℕ) × (input ≡ write_records crc found ++ tail))

  Scanned-cons :
      (r : WalRecord) (rs : List WalRecord) (input rest : List ℕ) (acc : List WalRecord)
      → Written crc input r rest
      → Scanned rest (acc ++ r ∷ []) rs
      → Scanned input acc rs
  unfolding Scanned write_records
  Scanned-cons r rs input rest acc w (found, e, valids, (tail, split)) = (
    r ∷ found,
    e ∙ append_assoc acc (r ∷ []) found,
    (w.valid, valids),
    (
      tail,
      w.split
          ∙ ap (λ t. write_record crc r ++ t) split
          ∙ sym (append_assoc (write_record crc r) (write_records crc found) tail),
    ),
  )

  read_loop-Scanned :
      (fuel : ℕ) (input : List ℕ) (acc rs : List WalRecord) (behind : List ℕ)
      → All IsByte input
      → read_loop crc fuel input acc ≡ ok (rs, behind)
      → Scanned input acc rs
  unfolding read_loop Scanned write_records
  read_loop-Scanned zero input acc rs behind h e = absurd (cc)
  read_loop-Scanned (suc fuel) input acc rs behind h e =
      go (λ rest r h e. read_loop-Scanned fuel rest (acc ++ r ∷ []) rs behind h e)
        (read_step crc input) refl
    where
      go :
          ((rest : List ℕ) (r : WalRecord)
            → All IsByte rest
            → read_loop crc fuel rest (acc ++ r ∷ []) ≡ ok (rs, behind)
            → Scanned rest (acc ++ r ∷ []) rs)
          → (x : Step) → read_step crc input ≡ x
          → Scanned input acc rs
      go later (stop rest) p =
          let same : rs ≡ acc = ground (arith, p, e) in
          ([], same ∙ sym (append-nil acc), tt, (input, refl))
      go later (fail x) p = absurd (ground (arith, p, e))
      go later (next r rest) p =
          let w = read_step-next crc input r rest h p in
          Scanned-cons r rs input rest acc w (later rest r w.rest_bytes (ground (arith, p, e)))

  -- Whatever bytes the file holds, and whatever the checksum, records that `ReadAllRecords` returns without an error are
  -- well-formed, and the file begins with what `writeRecordToBuffer` writes for them, in order.
  pub read_all_records_sound :
      (input : List ℕ) (rs : List WalRecord) (behind : List ℕ)
      → All IsByte input
      → read_all_records crc input ≡ ok (rs, behind)
      → All IsRecord rs × ((tail : List ℕ) × (input ≡ write_records crc rs ++ tail))
  unfolding read_all_records Scanned
  read_all_records_sound input rs behind h e =
      let (found, same, valids, (tail, split)) =
        read_loop-Scanned (suc (length input)) input [] rs behind h e in
      (
        subst (All IsRecord) (sym same) valids,
        (tail, split ∙ ap (λ t. write_records crc t ++ tail) (sym same)),
      )

  shorter :
      (input : List ℕ) (r : WalRecord) (rest : List ℕ)
      → Written crc input r rest
      → length rest < length input
  unfolding write_record
  shorter input r rest w = omega (
    arith,
    ap length w.split,
    length-append (be 4 wal_magic ++ header_tail crc r) rest,
    length-append (be 4 wal_magic) (header_tail crc r),
    length-be 4 wal_magic,
  )

  -- No round reports that the scan ran out of rounds.
  Reports : Step → Type 0
  Reports x = x ≡ fail out_of_fuel

  or_stop-Reports :
      (x : Read) (f : List ℕ → List ℕ → Step)
      → ((bs more : List ℕ) → ¬ Reports (f bs more))
      → ¬ Reports (or_stop x f)
  unfolding Reports
  or_stop-Reports eof f h e = cc
  or_stop-Reports unexpected_eof f h e = cc
  or_stop-Reports (got bs more) f h e = h bs more e

  read_payload-Reports :
      (type id gen size sum : ℕ) (input : List ℕ)
      → ¬ Reports (read_payload crc type id gen size sum input)
  unfolding Reports read_payload check_payload
  read_payload-Reports type id gen size sum input = go (signed32 size) refl
    where
      checked :
          (bs more : List ℕ) → ¬ (check_payload crc type id gen sum bs more ≡ fail out_of_fuel)
      checked bs more e = ground arith

      go :
          (z : ℤ)
          → signed32 size ≡ z
          → ¬ (read_payload crc type id gen size sum input ≡ fail out_of_fuel)
      go (negsuc n) p e = ground (arith, p)
      go (pos n) p e =
          or_stop-Reports (read_full n input) (check_payload crc type id gen sum) checked
            (ground (arith, p))

  read_type-Reports : (bytes input : List ℕ) → ¬ Reports (read_type crc bytes input)
  unfolding Reports read_type
  read_type-Reports bytes input e =
      or_stop-Reports (read_full 8 input) _
        (λ i r2. or_stop-Reports (read_full 8 r2) _ (λ g r3.
          or_stop-Reports (read_full 4 r3) _ (λ z r4. or_stop-Reports (read_full 4 r4) _ (λ s r5.
            read_payload-Reports (from_be bytes) (from_be i) (from_be g) (from_be z) (from_be s)
              r5))))
        (ground (arith, e))

  read_step-Reports : (input : List ℕ) → ¬ Reports (read_step crc input)
  unfolding Reports read_step
  read_step-Reports input = go (read_full 4 input) refl
    where
      go : (x : Read) → read_full 4 input ≡ x → ¬ (read_step crc input ≡ fail out_of_fuel)
      go eof p e = ground (arith, p)
      go unexpected_eof p e = ground (arith, p)
      go (got m more) p e =
          or_stop-Reports (read_full 1 more) (read_type crc) read_type-Reports (ground (arith, p))

  read_loop-ends :
      (fuel : ℕ) (input : List ℕ) (acc : List WalRecord)
      → All IsByte input
      → length input < fuel
      → read_loop crc fuel input acc ≢ err out_of_fuel
  unfolding read_loop Reports
  read_loop-ends zero input acc h k e = absurd (omega arith)
  read_loop-ends (suc fuel) input acc h k e =
      go (λ rest r h k. read_loop-ends fuel rest (acc ++ r ∷ []) h k) (read_step crc input) refl
    where
      go :
          ((rest : List ℕ) (r : WalRecord)
            → All IsByte rest
            → length rest < fuel
            → read_loop crc fuel rest (acc ++ r ∷ []) ≢ err out_of_fuel)
          → (x : Step) → read_step crc input ≡ x
          → ⊥
      go later (stop rest) p = ground (arith, p, e)
      go later (fail x) p = read_step-Reports input (ground (arith, p, e))
      go later (next r rest) p =
          let w = read_step-next crc input r rest h p in
          later rest r w.rest_bytes (omega (arith, shorter input r rest w)) (ground (arith, p, e))

  -- One round for every byte of the file and one more are enough: on no file does `ReadAllRecords`
  -- run on, it returns records or one of its errors.
  pub read_all_records-ends :
      (input : List ℕ) → All IsByte input → read_all_records crc input ≢ err out_of_fuel
  unfolding read_all_records
  read_all_records-ends input h = read_loop-ends (suc (length input)) input [] h (omega arith)
