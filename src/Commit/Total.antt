-- ===== src/Commit/Total.antt =====
-- The loops of `Commit` on indexes that report no error, and the calls of a transaction up to the
-- published state: `Commit` succeeds.
use masterkeeper.Base.{
  ℕ, ◌≤◌, String, Bool, true, false, Option, none, some, List, [], ◌∷◌, ◌++◌, ◌≡◌, refl, ◌∙◌,
  Comparable, arith, length, if◌then◌else◌, string_eq,
}
use masterkeeper.Base.Dict.{Dict}
use masterkeeper.Base.Result.{bind-eq, Result, ok}
use masterkeeper.Storage.{RecordPointer}
use masterkeeper.Transaction.State.{TableChangeSet}
use masterkeeper.Transaction.KeyedChanges.{AllKeyed}
use masterkeeper.Commit.Indexes.{Indexes, IsIndexes}
use masterkeeper.Commit.Shadow.{Schema, shadow_commit, read_committed_record}
use masterkeeper.Commit.Apply.{
  apply_deletes, apply_inserts, apply_updates, is_modified, commit_table,
}
use masterkeeper.Commit.Entries.{IsSchema, apply_updates-keyed}
use masterkeeper.Commit.Primary.{
  Shows, shadow_insert-shown, shadow_delete-shown, shadow_commit-Shows,
}
use masterkeeper.Commit.Loops.{Reads}
use masterkeeper.Commit.Success.{IsReliable, shadow_insert-ok, shadow_delete-ok, shadow_commit-ok}

module _ {V R T : Type 0} ⦃e : Comparable V⦄ (schema : Schema V R) (x : Indexes T)
    (reliable : IsReliable x)
    (serializes : (v : V) → (b : List ℕ) × (schema.serialize_key v ≡ ok b)) (laws : IsIndexes x)
    (proper : IsSchema schema) (read : RecordPointer → Result ℕ R) (name : String) (gen : ℕ) where
  -- Whatever key the primary index shows, its record can be read.
  abbrev pub IsReadable : T → Type 0
  IsReadable t =
      (j : V) (c : List ℕ) (at : schema.serialize_key j ≡ ok c)
      → (o : Option R) × Shows schema x read name gen c t o

  reads-ok :
      (k : V) (t : T)
      → IsReadable t
      → (old : Option R) × (read_committed_record schema x read k t ≡ ok old)
  unfolding read_committed_record
  reads-ok k t h =
      let (c, at_k) = serializes k in let (o, shows) = h k c at_k in (o, by_shown c at_k o shows)
    where
      by_shown :
          (c : List ℕ) (at_k : schema.serialize_key k ≡ ok c) (o : Option R)
          → Shows schema x read name gen c t o
          → read_committed_record schema x read k t ≡ ok o
      by_shown c at_k none found = ground (arith, at_k, found)
      by_shown c at_k (some r) (p, found, reads) = ground (arith, at_k, found, reads)

  pub apply_deletes-ok :
      (ks : Dict V (Unit {0})) (t : T)
      → IsReadable t
      → (u : T) × (apply_deletes schema x read name gen ks t ≡ ok u) × IsReadable u
  unfolding apply_deletes
  apply_deletes-ok [] t h = (t, refl, h)
  apply_deletes-ok ((k, v) ∷ ks) t h =
      let (old, found) = reads-ok k t h in
      let (w, gone) = shadow_delete-ok schema x reliable serializes name k old gen t in
      let (u, rest, readable) = apply_deletes-ok ks w (λ j c at.
        shadow_delete-shown schema x read name gen c laws proper k old t w (h j c at).0 gone
          (h j c at).1) in
      (u, bind-eq _ _ _ _ found (bind-eq _ _ _ _ gone rest), readable)

  pub apply_inserts-ok :
      (rs more : Dict V R) (ps : List RecordPointer) (t : T)
      → AllKeyed schema.primary_key rs
      → Reads read (rs ++ more) ps
      → length (rs ++ more) ≤ length ps
      → IsReadable t
      → (u : T) × (left : List RecordPointer) × (apply_inserts schema x read name gen rs ps t
          ≡ ok (u, left))
        × IsReadable u
        × Reads read more left
        × (length more ≤ length left)
  unfolding apply_inserts
  apply_inserts-ok [] more ps t keyed reads enough h = (t, ps, refl, h, reads, enough)
  apply_inserts-ok ((k, r) ∷ rs) more [] t keyed reads enough h = absurd (omega (arith, enough))
  apply_inserts-ok ((k, r) ∷ rs) more (p ∷ ps) t keyed reads enough h =
      let (w, entered) =
        shadow_insert-ok schema x reliable serializes laws name r k p gen t keyed.0 in
      let (u, left, rest, readable, reads_left, enough_left) =
        apply_inserts-ok rs more ps w keyed.1 reads.1 (omega (arith, enough)) (λ j c at.
          shadow_insert-shown schema x read name gen c laws proper r k p t w (h j c at).0 keyed.0
            reads.0 entered (h j c at).1) in
      (u, left, bind-eq _ _ _ _ entered rest, readable, reads_left, enough_left)

  pub apply_updates-ok :
      (rs : Dict V R) (ps : List RecordPointer) (t : T)
      → AllKeyed schema.primary_key rs
      → Reads read rs ps
      → length rs ≤ length ps
      → IsReadable t
      → (u : T) × (apply_updates schema x read name gen rs ps t ≡ ok u) × IsReadable u
  unfolding apply_updates
  apply_updates-ok [] ps t keyed reads enough h = (t, refl, h)
  apply_updates-ok ((k, r) ∷ rs) [] t keyed reads enough h = absurd (omega (arith, enough))
  apply_updates-ok ((k, r) ∷ rs) (p ∷ ps) t keyed reads enough h =
      let (old, found) = reads-ok k t h in
      let (w, gone) = shadow_delete-ok schema x reliable serializes name k old gen t in
      let (y, entered) =
        shadow_insert-ok schema x reliable serializes laws name r k p gen w keyed.0 in
      let (u, rest, readable) =
        apply_updates-ok rs ps y keyed.1 reads.1 (omega (arith, enough)) (λ j c at.
          let (q, shown) =
            shadow_delete-shown schema x read name gen c laws proper k old t w (h j c at).0 gone
              (h j c at).1 in
          shadow_insert-shown schema x read name gen c laws proper r k p w y q keyed.0 reads.0
            entered shown) in
      (
        u,
        apply_updates-keyed schema x laws read name gen k k r rs p ps t keyed.0
            ∙ bind-eq _ _ _ _ found (bind-eq _ _ _ _ gone (bind-eq _ _ _ _ entered rest)),
        readable,
      )

  pub commit_table-ok :
      (c : TableChangeSet V R) (ps : List RecordPointer) (t : T)
      → AllKeyed schema.primary_key c.inserts
      → AllKeyed schema.primary_key c.updates
      → Reads read (c.inserts ++ c.updates) ps
      → length (c.inserts ++ c.updates) ≤ length ps
      → IsReadable t
      → (u : T) × (commit_table schema x read name gen c ps t ≡ ok u) × IsReadable u
  unfolding commit_table
  commit_table-ok c ps t ki ku reads enough h =
      let (a, deleted, readable_a) =
        apply_deletes-ok c.deletes (if c.cleared then x.fresh else t) (start c.cleared) in
      let (b, left, inserted, readable_b, reads_left, enough_left) =
        apply_inserts-ok c.inserts c.updates ps a ki reads enough readable_a in
      let (d, updated, readable_d) =
        apply_updates-ok c.updates left b ku reads_left enough_left readable_b in
      let (u, last, readable) = finish (is_modified schema x read name gen c) d readable_d in
      (
        u,
        bind-eq _ _ _ _ deleted (bind-eq _ _ _ _ inserted (bind-eq _ _ _ _ updated last)),
        readable,
      )
    where
      start : (b : Bool) → IsReadable (if b then x.fresh else t)
      start true j c at = (none, laws.find-fresh "primary" c)
      start false j c at = h j c at

      finish :
          (b : Bool) (d : T)
          → IsReadable d
          → (u : T) × ((if b then shadow_commit schema x gen d else ok d) ≡ ok u) × IsReadable u
      finish true d h =
          let (u, done) = shadow_commit-ok schema x reliable serializes gen d in
          (
            u,
            done,
            λ j c at. (
              (h j c at).0,
              shadow_commit-Shows schema x read name gen c laws proper d u (h j c at).0 done
                  (h j c at).1,
            ),
          )
      finish false d h = (d, refl, h)
