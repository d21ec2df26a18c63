-- ===== src/Storage/Append.antt =====
-- `AppendRecord` and `AppendRecords`: what is appended can be read back, what was there stays, and
-- a batch is the sequence of its appends.
use masterkeeper.Base.{
  ℕ, zero, suc, ◌+◌, ◌≤◌, List, [], ◌∷◌, ◌++◌, ◌≡◌, refl, ap, ◌∙◌, length, length-append,
  length-take, take, drop, arith, some, get_elem?,
}
use mathlib.Core.List.{append-nil, append_assoc}
use mathlib.Core.Option.{none-ne-some}
use native.Mathlib.Nat.{add-zero, add_assoc}
use masterkeeper.Base.Result.{ok}
use masterkeeper.Base.Int.{pos, signed32-pos}
use masterkeeper.Storage.{
  RecordPointer, TableStorage, Fault, succeeds, fails_after, pointer_at, append_records,
  read_record, gather, max_record, write_at, read_at,
}
use masterkeeper.Storage.File.{read_at-write_at_before, read_at_middle, write_at-eq, write_at-nil}

-- The state behind a storage that is open: its file, which reaches up to `current_size` at least.
abbrev pub IsOpen : TableStorage → List ℕ → Type 0
IsOpen s f = (s.file ≡ some f) × (s.current_size ≤ length f)

-- The bytes of the records in one piece, and the pointers that the batch is given.
abbrev pub joined : List (List ℕ) → List ℕ
joined [] = []
joined (r ∷ rs) = r ++ joined rs

abbrev pub pointers_from : ℕ → List (List ℕ) → List RecordPointer
pointers_from off [] = []
pointers_from off (r ∷ rs) = pointer_at off (length r) ∷ pointers_from (off + length r) rs

pub gather-eq :
    (rs : List (List ℕ)) (off : ℕ) (buffer : List ℕ) (ps : List RecordPointer)
    → gather rs off buffer ps
      ≡ (buffer ++ joined rs, ps ++ pointers_from off rs, off + length (joined rs))
unfolding gather
gather-eq [] off buffer ps = rw (append-nil buffer, append-nil ps, add-zero off)
gather-eq (r ∷ rs) off buffer ps =
    gather-eq rs (off + length r) (buffer ++ r) (ps ++ pointer_at off (length r) ∷ [])
    ∙ rw (
      append_assoc buffer r (joined rs),
      append_assoc ps (pointer_at off (length r) ∷ []) (pointers_from (off + length r) rs),
      length-append r (joined rs),
      add_assoc off (length r) (length (joined rs)),
    )

module _ (s : TableStorage) (f : List ℕ) (open_ : IsOpen s f) (rs : List (List ℕ)) where
  abbrev appended : TableStorage
  appended = record {
    file = some (write_at f s.current_size (joined rs));
    current_size = s.current_size + length (joined rs);
  }

  pub append_records-eq :
      append_records succeeds s rs ≡ (ok (pointers_from s.current_size rs), appended)
  unfolding append_records
  append_records-eq = go (joined rs) refl
    where
      go :
          (bs : List ℕ)
          → joined rs ≡ bs
          → append_records succeeds s rs ≡ (ok (pointers_from s.current_size rs), appended)
      go [] e = ground (
        arith,
        gather-eq rs s.current_size [] [],
        e,
        write_at-nil f s.current_size open_.1,
        open_.0,
      )
      go (b ∷ bs) e = ground (arith, gather-eq rs s.current_size [] [], e, open_.0)

-- Each record of a batch that stands in a file is where its pointer says.
located :
    (rs : List (List ℕ)) (w pre rest : List ℕ) (off i : ℕ) (r : List ℕ)
    → w ≡ pre ++ (joined rs ++ rest)
    → off ≡ length pre
    → get_elem? rs i ≡ some r
    → (a : ℕ) × (get_elem? (pointers_from off rs) i ≡ some (pointer_at a (length r)))
      × (read_at w a (length r) ≡ ok r)
located [] w pre rest off i r e p h = absurd (none-ne-some r h)
located (x ∷ rs) w pre rest off zero r e p h =
    let x_eq : x ≡ r = cc in
    (
      off,
      rw x_eq,
      rw e (
          rw (append_assoc x (joined rs) rest, x_eq)
            (read_at_middle pre r (joined rs ++ rest) off (length r) p refl)),
    )
located (x ∷ rs) w pre rest off (suc i) r e p h =
    located rs w (pre ++ x) rest (off + length x) i r
      (e ∙ rw (append_assoc x (joined rs) rest, append_assoc pre x (joined rs ++ rest)))
      (rw (length-append pre x, p)) h

module _ (s : TableStorage) (f : List ℕ) (open_ : IsOpen s f) where
  -- A record read by a pointer of a batch: the size fits in the pointer and below the limit.
  read_record-pointer_at :
      (t : TableStorage) (w : List ℕ) (a : ℕ) (r : List ℕ)
      → t.file ≡ some w
      → length r ≤ max_record
      → read_at w a (length r) ≡ ok r
      → read_record t (pointer_at a (length r)) ≡ ok r
  unfolding read_record
  read_record-pointer_at t w a r e h k = ground (arith, signed32-pos (length r))

  -- On an open storage whose write succeeds, `AppendRecords` returns pointers such that, for every
  -- record of the batch of at most 64 MiB, reading the pointer at its place gives the record.
  pub read_record-append_records :
      (rs : List (List ℕ)) (i : ℕ) (r : List ℕ)
      → get_elem? rs i ≡ some r
      → length r ≤ max_record
      → (ps : List RecordPointer) × (p : RecordPointer) × ((append_records succeeds s rs).0 ≡ ok ps)
        × (get_elem? ps i ≡ some p)
        × (read_record (append_records succeeds s rs).1 p ≡ ok r)
  read_record-append_records rs i r h small =
      let done = append_records-eq s f open_ rs in
      let (a, found, reads) =
        located rs (write_at f s.current_size (joined rs)) (take s.current_size f)
          (drop (s.current_size + length (joined rs)) f) s.current_size i r
          (write_at-eq f s.current_size (joined rs) open_.1)
          (omega (arith, length-take s.current_size f, open_.1)) h in
      (
        pointers_from s.current_size rs,
        pointer_at a (length r),
        ap (λ m. m.0) done,
        found,
        ap (λ m. read_record m.1 (pointer_at a (length r))) done
            ∙ read_record-pointer_at (appended s f open_ rs) _ a r refl small reads,
      )

  -- A pointer to bytes below `current_size`.
  abbrev pub IsWithin : RecordPointer → Type 0
  IsWithin p =
      (off : ℕ) × (n : ℕ) × (p.offset ≡ pos off) × (p.size ≡ pos n) × (off + n ≤ s.current_size)

  -- On an open storage no append, be it one that fails half way, changes what a pointer to bytes below
  -- the current size reads.
  pub read_record-append_records_before :
      (fault : Fault) (rs : List (List ℕ)) (p : RecordPointer)
      → IsWithin p
      → read_record (append_records fault s rs).1 p ≡ read_record s p
  unfolding append_records read_record
  read_record-append_records_before succeeds rs p (off, n, po, ps, inside) = ground (
    arith,
    open_.0,
    po,
    ps,
    gather-eq rs s.current_size [] [],
    read_at-write_at_before f s.current_size (joined rs) off n open_.1 inside,
  )
  read_record-append_records_before (fails_after m) rs p (off, n, po, ps, inside) = ground (
    arith,
    open_.0,
    po,
    ps,
    gather-eq rs s.current_size [] [],
    read_at-write_at_before f s.current_size (take m (joined rs)) off n open_.1 inside,
  )
