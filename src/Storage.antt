-- ===== src/Storage.antt =====
-- storage.go: the record file of a table. Its contents are a list of bytes; what the operating
-- system does with a write, or with a step of the compaction, is an argument of the operation.
pub mod File
pub mod Append
pub mod Sequence
pub mod Compaction
mod Tests
use masterkeeper.Base.{
  ℕ, zero, suc, ◌+◌, ◌-◌, ◌*◌, ◌≤◌, Bool, true, false, ◌||◌, ◌&&◌, Option, none, some, List, [],
  ◌∷◌, ◌++◌, ltb, leb, nat_eqb, if◌then◌else◌, length, take, drop, replicate, Comparable,
}
use masterkeeper.Base.Dict.{Dict}
use masterkeeper.Base.Int.{ℤ, pos, negsuc, signed32}
use masterkeeper.Base.Result.{Result, ok, err, ◌>>=◌}
use masterkeeper.Base.Slice.{slice}

pub record RecordPointer : Type 0 where
  pub offset : ℤ
  pub size : ℤ

-- `file` is `none` once the storage is closed.
pub record TableStorage : Type 0 where
  pub file : Option (List ℕ)
  pub current_size : ℕ

-- `panics` is the crash of `make` on a negative length.
pub data Error : Type 0 where
  database_closed write_failed invalid_size negative_offset unexpected_eof panics swap_failed :
      Error

-- `file.WriteAt(bytes, off)`: a write past the end leaves zeros in between.
unfoldable pub write_at : List ℕ → ℕ → List ℕ → List ℕ
write_at f off bytes =
    take off (f ++ replicate (off - length f) 0) ++ (bytes ++ drop (off + length bytes) f)

-- `file.ReadAt(buffer, off)` with a buffer of `n` bytes: an empty buffer is filled by no read.
unfoldable pub read_at : List ℕ → ℕ → ℕ → Result Error (List ℕ)
read_at f off n =
    if nat_eqb n 0
    then ok []
    else if leb (off + n) (length f)
    then ok (slice off n f)
    else err unexpected_eof

-- `NewTableStorage` on a file with these contents.
unfoldable pub new_table_storage : List ℕ → TableStorage
new_table_storage f = record { file = some f; current_size = length f }

-- A write either succeeds, or fails after its first `n` bytes.
pub data Fault : Type 0 where
  succeeds : Fault
  fails_after : ℕ → Fault

abbrev pub pointer_at : ℕ → ℕ → RecordPointer
pointer_at off n = record { offset = pos off; size = signed32 n }

unfoldable pub append_record :
    Fault → TableStorage → List ℕ → Result Error RecordPointer × TableStorage
append_record fault s bytes = elim s.file [
  | none ↦ (err database_closed, s)
  | some f ↦ elim fault [
    | succeeds ↦ (
      ok (pointer_at s.current_size (length bytes)),
      record {
        file = some (write_at f s.current_size bytes);
        current_size = s.current_size + length bytes;
      },
    )
    | fails_after n ↦
        (err write_failed, record s { file = some (write_at f s.current_size (take n bytes)) })
  ]
]

-- The loop of `AppendRecords`: the buffer, the pointers and the offset behind the last record.
unfoldable pub gather :
    List (List ℕ) → ℕ → List ℕ → List RecordPointer → List ℕ × List RecordPointer × ℕ
gather [] off buffer pointers = (buffer, pointers, off)
gather (bytes ∷ rest) off buffer pointers =
    gather rest (off + length bytes) (buffer ++ bytes)
      (pointers ++ pointer_at off (length bytes) ∷ [])

abbrev is_nil {ℓ} : {A : Type ℓ} → List A → Bool
is_nil [] = true
is_nil (x ∷ xs) = false

unfoldable pub append_records :
    Fault → TableStorage → List (List ℕ) → Result Error (List RecordPointer) × TableStorage
append_records fault s records = elim s.file [
  | none ↦ (err database_closed, s)
  | some f ↦
      let (buffer, pointers, off) = gather records s.current_size [] [] in
      if is_nil buffer then (ok pointers, record s { current_size = off }) else elim fault [
        | succeeds ↦ (
          ok pointers,
          record { file = some (write_at f s.current_size buffer); current_size = off },
        )
        | fails_after n ↦
            (err write_failed, record s { file = some (write_at f s.current_size (take n buffer)) })
      ]
]

abbrev pub max_record : ℕ
max_record = 1024 * 1024 * 64

unfoldable pub read_record : TableStorage → RecordPointer → Result Error (List ℕ)
read_record s p = elim s.file [
  | none ↦ err database_closed
  | some f ↦ elim p.size [
    | negsuc n ↦ err invalid_size
    | pos n ↦
        if ltb max_record n
        then err invalid_size
        else elim p.offset [ negsuc m ↦ err negative_offset | pos off ↦ read_at f off n ]
  ]
]

unfoldable pub close : TableStorage → TableStorage
close s = record s { file = none }

unfoldable pub reset : TableStorage → Result Error (Unit {0}) × TableStorage
reset s = elim s.file [
  | none ↦ (err database_closed, s)
  | some f ↦ (ok tt, record { file = some []; current_size = 0 })
]

-- The steps of `Compact` after its loop that can fail: up to the close of the old file nothing has
-- changed; after it the storage has no file until it is opened again.
pub data CompactFault : Type 0 where
  runs before_swap during_swap : CompactFault

-- The loop of `Compact` over the active pointers: the compacted file and the new pointers.
unfoldable pub compact_loop :
    {K : Type 0}
    → List ℕ
    → Dict K RecordPointer
    → List ℕ
    → Dict K RecordPointer
    → Result Error (List ℕ × Dict K RecordPointer)
compact_loop f [] out pointers = ok (out, pointers)
compact_loop f ((k, p) ∷ rest) out pointers = elim p.size [
  | negsuc n ↦ err panics
  | pos n ↦ elim p.offset [
    | negsuc m ↦ err negative_offset
    | pos off ↦ elim (read_at f off n) [
      | err x ↦ err x
      | ok bytes ↦
          compact_loop f rest (write_at out (length out) bytes)
            (pointers ++ (k, record { offset = pos (length out); size = p.size }) ∷ [])
    ]
  ]
]

-- `Compact`; the pointers come back as the argument `activePointers` is left.
unfoldable pub compact :
    {K : Type 0}
    → CompactFault
    → TableStorage
    → Dict K RecordPointer
    → Result Error (Unit {0}) × TableStorage × Dict K RecordPointer
compact fault s active = elim s.file [
  | none ↦ (err database_closed, s, active)
  | some f ↦ elim (compact_loop f active [] []) [
    | err x ↦ (err x, s, active)
    | ok (out, pointers) ↦ elim fault [
      | runs ↦ (ok tt, record { file = some out; current_size = length out }, pointers)
      | before_swap ↦ (err swap_failed, s, active)
      | during_swap ↦ (err swap_failed, record s { file = none }, active)
    ]
  ]
]
