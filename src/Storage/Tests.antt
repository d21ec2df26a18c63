-- ===== src/Storage/Tests.antt =====
-- Runs of the record file on a few bytes.
use masterkeeper.Base.{ℕ, List, [], ◌∷◌, ◌≡◌, refl, arith, some, get_elem?}
use masterkeeper.Base.Dict.{Dict}
use masterkeeper.Base.Int.{pos}
use masterkeeper.Base.Result.{ok}
use masterkeeper.Storage.{
  RecordPointer, TableStorage, succeeds, fails_after, append_records, read_record, read_at, runs,
  compact,
}
use masterkeeper.Storage.Append.{
  IsOpen, read_record-append_records, read_record-append_records_before,
}
use masterkeeper.Storage.Sequence.{append_each, append_records-append_each}
use masterkeeper.Storage.Compaction.{compact-keeps}

abbrev bytes : List ℕ
bytes = 1 ∷ 2 ∷ 3 ∷ 4 ∷ []

abbrev storage : TableStorage
storage = record { file = some bytes; current_size = 4 }

abbrev batch : List (List ℕ)
batch = (9 ∷ 8 ∷ []) ∷ (7 ∷ []) ∷ []

storage-IsOpen : IsOpen storage bytes
storage-IsOpen = (refl, omega arith)

read_record-append_records_example :
    (ps : List RecordPointer) × (p : RecordPointer) × ((append_records succeeds storage batch).0
      ≡ ok ps)
    × (get_elem? ps 1 ≡ some p)
    × (read_record (append_records succeeds storage batch).1 p ≡ ok (7 ∷ []))
read_record-append_records_example =
    read_record-append_records storage bytes storage-IsOpen batch 1 (7 ∷ []) refl (omega arith)

abbrev middle : RecordPointer
middle = record { offset = pos 1; size = pos 2 }

read_record-append_records_before_example :
    read_record (append_records (fails_after 1) storage batch).1 middle ≡ read_record storage middle
read_record-append_records_before_example =
    read_record-append_records_before storage bytes storage-IsOpen (fails_after 1) batch middle
      (1, 2, refl, refl, omega arith)

append_records-append_each_example :
    append_records succeeds storage batch ≡ append_each storage batch
append_records-append_each_example = append_records-append_each storage bytes batch storage-IsOpen

abbrev active : Dict ℕ RecordPointer
active = (5, middle) ∷ []

compact-keeps_example :
    ((compact runs storage active).0 ≡ ok tt)
    × ((compact runs storage active).1.file ≡ some (2 ∷ 3 ∷ []))
    × ((q : RecordPointer) × (get_elem? (compact runs storage active).2 0 ≡ some (5, q))
        × (read_record (compact runs storage active).1 q ≡ read_record storage middle))
unfolding read_at
compact-keeps_example =
    compact-keeps storage bytes active ((2 ∷ 3 ∷ []) ∷ []) refl ((1, refl, refl, refl), tt) 0 5
      middle refl
