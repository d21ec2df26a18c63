-- ===== src/Storage/Sequence.antt =====
-- A batch of appends against the same appends one after the other.
use masterkeeper.Base.{
  ℕ, ◌+◌, ◌≤◌, List, [], ◌∷◌, ◌++◌, ◌≡◌, refl, sym, ap, ◌∙◌, length, take, drop, length-append,
  length-take, take-append, arith, some,
}
use mathlib.Core.List.{append_assoc}
use native.Mathlib.Nat.{add_assoc}
use masterkeeper.Base.Slice.{drop-append_add, drop-drop}
use masterkeeper.Base.Result.{Result, ok, err}
use masterkeeper.Storage.{
  RecordPointer, TableStorage, Error, succeeds, append_record, append_records, pointer_at, write_at,
}
use masterkeeper.Storage.File.{write_at-eq, write_at-nil, length-write_at}
use masterkeeper.Storage.Append.{IsOpen, joined, pointers_from, append_records-eq}

-- `AppendRecord` for each record in turn, up to the first error.
unfoldable pub append_each :
    TableStorage → List (List ℕ) → Result Error (List RecordPointer) × TableStorage
append_each s [] = (ok [], s)
append_each s (r ∷ rs) =
    let (first, s1) = append_record succeeds s r in
    let (others, s2) = append_each s1 rs in
    elim first [
      | err x ↦ (err x, s1)
      | ok p ↦ elim others [ err x ↦ (err x, s2) | ok ps ↦ (ok (p ∷ ps), s2) ]
    ]

-- Two writes, the second behind the first, are one.
write_at-write_at :
    (f : List ℕ) (off : ℕ) (xs ys : List ℕ)
    → off ≤ length f
    → write_at (write_at f off xs) (off + length xs) ys ≡ write_at f off (xs ++ ys)
write_at-write_at f off xs ys h =
    let front = take off f ++ xs in
    let n : off + length xs ≡ length front =
      omega (arith, length-append (take off f) xs, length-take off f) in
    let first : write_at f off xs ≡ front ++ drop (off + length xs) f =
      write_at-eq f off xs h ∙ sym (append_assoc (take off f) xs _) in
    write_at-eq (write_at f off xs) (off + length xs) ys (length-write_at f off xs h)
    ∙ ap (λ w. take (off + length xs) w ++ (ys ++ drop (off + length xs + length ys) w)) first
    ∙ rw
        (
          ap (λ k. take k (front ++ drop (off + length xs) f)) n,
          take-append front (drop (off + length xs) f),
          drop-append_add front (drop (off + length xs) f) (off + length xs + length ys) (length ys)
              (omega arith),
          drop-drop (off + length xs) (length ys) f,
          append_assoc (take off f) xs (ys ++ drop (off + length xs + length ys) f),
        )
        (sym (
          write_at-eq f off (xs ++ ys) h
          ∙ rw (
            length-append xs ys,
            append_assoc xs ys (drop (off + (length xs + length ys)) f),
            add_assoc off (length xs) (length ys),
          )))

module _ (s : TableStorage) (f : List ℕ) (open_ : IsOpen s f) where
  append_record-eq :
      (r : List ℕ)
      → append_record succeeds s r ≡ (
        ok (pointer_at s.current_size (length r)),
        record {
          file = some (write_at f s.current_size r);
          current_size = s.current_size + length r;
        },
      )
  unfolding append_record
  append_record-eq r = ground (arith, open_.0)

abbrev after : TableStorage → List ℕ → List ℕ → TableStorage
after s f r = record {
  file = some (write_at f s.current_size r);
  current_size = s.current_size + length r;
}

append_each-eq :
    (rs : List (List ℕ)) (s : TableStorage) (f : List ℕ)
    → IsOpen s f
    → append_each s rs ≡ (
      ok (pointers_from s.current_size rs),
      record {
        file = some (write_at f s.current_size (joined rs));
        current_size = s.current_size + length (joined rs);
      },
    )
unfolding append_each
append_each-eq [] s f open_ = ground (arith, open_.0, write_at-nil f s.current_size open_.1)
append_each-eq (r ∷ rs) s f open_ = ground (
  arith,
  append_record-eq s f open_ r,
  append_each-eq rs (after s f r) (write_at f s.current_size r)
      (refl, length-write_at f s.current_size r open_.1),
  write_at-write_at f s.current_size r (joined rs) open_.1,
  length-append r (joined rs),
)

-- On an open storage whose writes succeed, `AppendRecords` returns the pointers and leaves the
-- file and size that `AppendRecord` would, called for each record in turn.
pub append_records-append_each :
    (s : TableStorage) (f : List ℕ) (rs : List (List ℕ))
    → IsOpen s f
    → append_records succeeds s rs ≡ append_each s rs
append_records-append_each s f rs open_ =
    append_records-eq s f open_ rs ∙ sym (append_each-eq rs s f open_)
