-- ===== src/Storage/Compaction.antt =====
-- `Compact`: every active pointer reads afterwards what it read before.
use masterkeeper.Base.{
  ℕ, zero, suc, ◌+◌, List, [], ◌∷◌, ◌++◌, ◌≡◌, refl, sym, ap, ◌∙◌, length, arith, some, get_elem?,
  length-append,
}
use mathlib.Core.List.{append_assoc, append-nil}
use mathlib.Core.Option.{none-ne-some}
use mathlib.Core.Path.{subst}
use masterkeeper.Base.Slice.{take_all, drop_all}
use masterkeeper.Base.Dict.{Dict}
use masterkeeper.Base.Int.{pos}
use masterkeeper.Base.Result.{ok}
use masterkeeper.Storage.{
  RecordPointer, TableStorage, compact, compact_loop, runs, read_record, read_at, write_at,
}
use masterkeeper.Storage.Append.{joined}
use masterkeeper.Storage.File.{read_at_middle, write_at-eq}

some_inj {ℓ} : {A : Type ℓ} {x y : A} → some x ≡ some y → x ≡ y
some_inj e = cc

-- The pointer `p` is to the bytes `b` of the file `f`.
abbrev pub PointsTo : List ℕ → RecordPointer → List ℕ → Type 0
PointsTo f p b =
    (off : ℕ) × (p.offset ≡ pos off) × (p.size ≡ pos (length b)) × (read_at f off (length b) ≡ ok b)

write_at_end : (out b : List ℕ) → write_at out (length out) b ≡ out ++ b
write_at_end out b =
    write_at-eq out (length out) b (omega arith)
    ∙ rw (take_all out, drop_all out (length b), append-nil b)

module _ {K : Type 0} where
  -- The active pointers point, one by one, to these contents.
  abbrev pub Holds : List ℕ → Dict K RecordPointer → List (List ℕ) → Type 0
  Holds f [] [] = Unit
  Holds f [] (b ∷ bs) = ⊥
  Holds f ((k, p) ∷ active) [] = ⊥
  Holds f ((k, p) ∷ active) (b ∷ bs) = PointsTo f p b × Holds f active bs

  -- The pointers to the same contents, laid out one behind the other from `off` on.
  abbrev pub moved : ℕ → Dict K RecordPointer → List (List ℕ) → Dict K RecordPointer
  moved off [] bs = []
  moved off ((k, p) ∷ active) [] = []
  moved off ((k, p) ∷ active) (b ∷ bs) =
      (k, record { offset = pos off; size = p.size }) ∷ moved (off + length b) active bs

  compact_loop-eq :
      (f : List ℕ) (active : Dict K RecordPointer) (bs : List (List ℕ)) (out : List ℕ)
      (ps : Dict K RecordPointer)
      → Holds f active bs
      → compact_loop f active out ps ≡ ok (out ++ joined bs, ps ++ moved (length out) active bs)
  unfolding compact_loop
  compact_loop-eq f [] [] out ps h = rw (append-nil out, append-nil ps)
  compact_loop-eq f [] (b ∷ bs) out ps h = elim h [ ]
  compact_loop-eq f ((k, p) ∷ active) [] out ps h = elim h [ ]
  compact_loop-eq f ((k, p) ∷ active) (b ∷ bs) out ps ((off, po, ps', reads), h) =
      let q : K × RecordPointer = (k, record { offset = pos (length out); size = p.size }) in
      ground (
        arith,
        po,
        ps',
        reads,
        write_at_end out b,
        compact_loop-eq f active bs (out ++ b) (ps ++ q ∷ []) h,
        append_assoc out b (joined bs),
        append_assoc ps (q ∷ []) (moved (length out + length b) active bs),
        length-append out b,
      )

  found :
      (f w : List ℕ) (active : Dict K RecordPointer) (bs : List (List ℕ)) (front : List ℕ) (i : ℕ)
      (k : K) (p : RecordPointer)
      → Holds f active bs
      → w ≡ front ++ joined bs
      → get_elem? active i ≡ some (k, p)
      → (b : List ℕ) × (a : ℕ) × (get_elem? (moved (length front) active bs) i
          ≡ some (k, record { offset = pos a; size = p.size }))
        × PointsTo f p b
        × (read_at w a (length b) ≡ ok b)
  found f w [] bs front i k p h e g = absurd (none-ne-some _ g)
  found f w ((j, x) ∷ active) [] front i k p h e g = elim h [ ]
  found f w ((j, x) ∷ active) (b ∷ bs) front zero k p (points, h) e g =
      let same : x ≡ p = ap (λ t. t.1) (some_inj g) in
      (
        b,
        length front,
        cc,
        subst (λ y. PointsTo f y b) same points,
        rw e (read_at_middle front b (joined bs) (length front) (length b) refl refl),
      )
  found f w ((j, x) ∷ active) (b ∷ bs) front (suc i) k p (points, h) e g =
      rw (← length-append front b)
        (found f w active bs (front ++ b) i k p h (e ∙ sym (append_assoc front b (joined bs))) g)

module _ {K : Type 0} (s : TableStorage) (f : List ℕ) (active : Dict K RecordPointer)
    (bs : List (List ℕ)) (is_open : s.file ≡ some f) (holds : Holds f active bs) where
  abbrev compacted : TableStorage
  compacted = record { file = some (joined bs); current_size = length (joined bs) }

  compact-eq : compact runs s active ≡ (ok tt, compacted, moved 0 active bs)
  unfolding compact
  compact-eq = ground (arith, is_open, compact_loop-eq f active bs [] [] holds)

  -- On an open storage whose active pointers are all to bytes of the file, and where the steps behind
  -- the loop of `Compact` run, `Compact` succeeds, the file afterwards holds
  -- these bytes and no others, every key keeps its place, and its new pointer reads what the old
  -- one read.
  pub compact-keeps :
      (i : ℕ) (k : K) (p : RecordPointer)
      → get_elem? active i ≡ some (k, p)
      → ((compact runs s active).0 ≡ ok tt)
        × ((compact runs s active).1.file ≡ some (joined bs))
        × ((q : RecordPointer) × (get_elem? (compact runs s active).2 i ≡ some (k, q))
            × (read_record (compact runs s active).1 q ≡ read_record s p))
  unfolding read_record
  compact-keeps i k p g =
      let (b, a, at_i, (off, po, ps, old), new) =
        found f (joined bs) active bs [] i k p holds refl g in
      (
        ap (λ m. m.0) compact-eq,
        ap (λ m. m.1.file) compact-eq,
        (
          record { offset = pos a; size = p.size },
          ap (λ m. get_elem? m.2 i) compact-eq ∙ at_i,
          ap (λ m. read_record m.1 (record { offset = pos a; size = p.size })) compact-eq
              ∙ ground (arith, is_open, po, ps, old, new),
        ),
      )
