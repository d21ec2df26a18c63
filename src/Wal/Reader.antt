-- ===== src/Wal/Reader.antt =====
-- wal.go: `ReadAllRecords`, on the bytes of the log from its start.
use masterkeeper.Base.{
  ℕ, zero, suc, ◌*◌, List, [], ◌∷◌, ◌++◌, length, take, drop, ltb, leb, nat_eqb, if◌then◌else◌,
}
use masterkeeper.Base.Int.{pos, negsuc, signed32, signed64}
use masterkeeper.Base.Bytes.{from_be}
use masterkeeper.Base.Result.{Result, ok, err}
use masterkeeper.Wal.Record.{WalRecord, wal_magic, hashed}

-- `io.ReadFull`: nothing was left, something but too little was left, or the bytes and the rest.
pub data Read : Type 0 where
  eof unexpected_eof : Read
  got : List ℕ → List ℕ → Read

unfoldable pub read_full : ℕ → List ℕ → Read
read_full zero input = got [] input
read_full (suc n) [] = eof
read_full (suc n) (b ∷ bs) =
    if leb (suc n) (length (b ∷ bs))
    then got (take (suc n) (b ∷ bs)) (drop (suc n) (b ∷ bs))
    else unexpected_eof

-- `out_of_fuel` is no error of the source: it marks a scan that was given too few rounds.
pub data WalError : Type 0 where
  short_magic magic_mismatch unknown_operation invalid_payload_length checksum_mismatch
        out_of_fuel :
      WalError

-- One round of the loop: `break` with what the file offset then has behind it, an error, or a record
-- and what follows it.
pub data Step : Type 0 where
  stop : List ℕ → Step
  fail : WalError → Step
  next : WalRecord → List ℕ → Step

-- A field that cannot be read in full ends the scan, with the offset at the end of the file.
abbrev pub or_stop : Read → (List ℕ → List ℕ → Step) → Step
or_stop eof f = stop []
or_stop unexpected_eof f = stop []
or_stop (got bytes rest) f = f bytes rest

module _ (crc : List ℕ → ℕ) where
  -- The checksum, against the fields that were read; the words stand for the signed values, which
  -- the source converts back before it hashes them.
  unfoldable pub check_payload : ℕ → ℕ → ℕ → ℕ → List ℕ → List ℕ → Step
  check_payload type id gen sum payload rest =
      if nat_eqb (crc (hashed type id gen payload)) sum
      then next
          (record {
            type = type;
            transaction_id = signed64 id;
            generation = signed64 gen;
            payload = payload;
          })
          rest
      else fail checksum_mismatch

  -- The payload and its bounds, behind the fixed part of the header.
  unfoldable pub read_payload : ℕ → ℕ → ℕ → ℕ → ℕ → List ℕ → Step
  read_payload type id gen size sum input = elim (signed32 size) [
    | negsuc n ↦ fail invalid_payload_length
    | pos n ↦
        if ltb (1024 * 1024 * 64) n
        then fail invalid_payload_length
        else if ltb (length input) n
        then stop input
        else or_stop (read_full n input) (check_payload type id gen sum)
  ]

  unfoldable pub read_type : List ℕ → List ℕ → Step
  read_type bytes input =
      let type = from_be bytes in
      if ltb 11 type
      then fail unknown_operation
      else or_stop (read_full 8 input) λ id r2. or_stop (read_full 8 r2) λ gen r3.
        or_stop (read_full 4 r3) λ size r4.
          or_stop (read_full 4 r4)
            λ sum r5. read_payload type (from_be id) (from_be gen) (from_be size) (from_be sum) r5

  unfoldable pub read_step : List ℕ → Step
  read_step input = elim (read_full 4 input) [
    | eof ↦ stop []
    | unexpected_eof ↦ fail short_magic
    | got magic r0 ↦
        if nat_eqb (from_be magic) wal_magic
        then or_stop (read_full 1 r0) read_type
        else if leb (length r0) 4
        then stop []
        else fail magic_mismatch
  ]

  -- The loop; every round takes a record off the input.
  unfoldable pub read_loop : ℕ → List ℕ → List WalRecord → Result WalError (List WalRecord × List ℕ)
  read_loop zero input acc = err out_of_fuel
  read_loop (suc fuel) input acc = elim (read_step input) [
    | stop rest ↦ ok (acc, rest)
    | fail e ↦ err e
    | next r rest ↦ read_loop fuel rest (acc ++ r ∷ [])
  ]

  -- The records, and the bytes that the file offset has behind it when the scan ends.
  unfoldable pub read_all_records : List ℕ → Result WalError (List WalRecord × List ℕ)
  read_all_records input = read_loop (suc (length input)) input []
