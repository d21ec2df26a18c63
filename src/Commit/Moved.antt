-- ===== src/Commit/Moved.antt =====
-- A value of a unique index that goes from one record to another within a transaction: `Commit` runs
-- the inserts before the updates, and each update deletes the entry of the old value.
use masterkeeper.Base.{
  ℕ, String, Bool, true, false, none, some, List, [], ◌∷◌, ◌++◌, ◌≡◌, ◌≢◌, sym, ap, ◌∙◌,
  if◌then◌else◌, Comparable, ◌==◌, arith, Bool-cases, inl, inr, string_eq, bytes_eq,
}
use mathlib.Core.Path.{subst}
use masterkeeper.Base.Dict.{Dict, get, get-nil, IsDistinct}
use masterkeeper.Base.Result.{bind-ok, Result, ok, ok_inj}
use masterkeeper.Storage.{RecordPointer}
use masterkeeper.Transaction.State.{IndexMetadata, TableChangeSet}
use masterkeeper.Commit.Maps.{Tree, map_indexes, map_indexes-IsIndexes}
use masterkeeper.Commit.Shadow.{
  Schema, shadow_insert, shadow_delete, shadow_commit, read_committed_record,
}
use masterkeeper.Commit.Apply.{
  apply_deletes, apply_inserts, apply_updates, is_modified, commit_table,
}
use masterkeeper.Transaction.KeyedChanges.{AllKeyed}
use masterkeeper.Commit.Primary.{AreApart, AreApartChanges, Shows}
use masterkeeper.Commit.Loops.{or_else, Reads, apply_inserts-Shows, commit_table-Shows}
use masterkeeper.Commit.Entries.{of_tree-ok, IsSchema, apply_updates-keyed}
use masterkeeper.Commit.OldEntry.{shadow_delete-entry, shadow_insert-entry}

module _ {V R : Type 0} ⦃e : Comparable V⦄ (schema : Schema V R) (name : String) (m : IndexMetadata)
    (unique : m.unique ≡ true) (secondary : m.index_name ≢ "primary")
    (one : (r : R) → schema.extract_index_metadata_list name r ≡ m ∷ []) (gen : ℕ) where
  module _ (read : RecordPointer → Result ℕ R) where
    -- One update, as the last one: the entry of the old value is gone.
    apply_updates-entry :
        (k v w : V) (old r : R) (ps : List RecordPointer) (t u : Tree) (b : List ℕ)
        → schema.primary_key r ≡ some k
        → read_committed_record schema map_indexes read k t ≡ ok (some old)
        → schema.field_value old m.field_name ≡ some v
        → schema.field_value r m.field_name ≡ some w
        → schema.serialize_key (schema.canonicalize_key v) ≡ ok b
        → schema.serialize_key (schema.canonicalize_key w) ≢ ok b
        → apply_updates schema map_indexes read name gen ((k, r) ∷ []) ps t ≡ ok u
        → map_indexes.find u m.index_name b ≡ ok none
    unfolding apply_updates
    apply_updates-entry k v w old r [] t u b key found field_old field_new at_b differ eq =
        absurd (cc)
    apply_updates-entry k v w old r (p ∷ ps) t u b key found field_old field_new at_b differ eq =
        let (was, read_eq, e1) = bind-ok (read_committed_record schema map_indexes read k t) _ u (
          sym (
            apply_updates-keyed schema map_indexes map_indexes-IsIndexes read name gen k k r [] p ps
              t key)
          ∙ eq) in
        let (a, deleted, e2) = bind-ok (shadow_delete schema map_indexes name k was gen t) _ u e1 in
        let (y, inserted, last) =
          bind-ok (shadow_insert schema map_indexes name r p gen a) _ u e2 in
        subst (λ q. map_indexes.find q m.index_name b ≡ ok none) (ok_inj last)
          (shadow_insert-entry schema map_indexes map_indexes-IsIndexes name m unique secondary one
              gen k w r p a y b key field_new differ inserted
            ∙ shadow_delete-entry schema map_indexes map_indexes-IsIndexes name m unique secondary
                one gen k v old t a b field_old at_b
                (ap (λ o. shadow_delete schema map_indexes name k o gen t)
                    (ok_inj (sym found ∙ read_eq))
                  ∙ deleted))

    -- A record that the index shows is read.
    read_shown :
        (k : V) (c : List ℕ) (at_k : schema.serialize_key k ≡ ok c) (t : Tree) (r : R)
        → Shows schema map_indexes read name gen c t (some r)
        → read_committed_record schema map_indexes read k t ≡ ok (some r)
    unfolding read_committed_record
    read_shown k c at_k t r (p, found, reads) = ground (arith, at_k, found, reads)

    committed_find :
        (t u : Tree) (b : List ℕ)
        → shadow_commit schema map_indexes gen t ≡ ok u
        → map_indexes.find u m.index_name b ≡ map_indexes.find t m.index_name b
    unfolding shadow_commit
    committed_find t u b done =
        map_indexes-IsIndexes.find-commit t u m.index_name b gen (of_tree-ok _ u done)

    module _ (proper : IsSchema schema) (rs : Dict V R) (k : V) (r : R) where
      -- Inserts and one update.
      abbrev pub moved : TableChangeSet V R
      moved = record { cleared = false; inserts = rs; updates = (k, r) ∷ []; deletes = [] }

      without_entry :
          (v w : V) (old : R) (q : RecordPointer) (ps : List RecordPointer) (t u : Tree)
          (b c : List ℕ)
          → AllKeyed schema.primary_key rs
          → IsDistinct rs
          → get rs k ≡ none
          → schema.primary_key r ≡ some k
          → Reads read (rs ++ (k, r) ∷ []) ps
          → schema.serialize_key k ≡ ok c
          → map_indexes.find t "primary" c ≡ ok (some q)
          → read q ≡ ok old
          → schema.field_value old m.field_name ≡ some v
          → schema.field_value r m.field_name ≡ some w
          → schema.serialize_key (schema.canonicalize_key v) ≡ ok b
          → schema.serialize_key (schema.canonicalize_key w) ≢ ok b
          → AreApart schema k c rs
          → commit_table schema map_indexes read name gen moved ps t ≡ ok u
          → map_indexes.find u m.index_name b ≡ ok none
      unfolding commit_table apply_deletes
      without_entry v w old q ps t u b c keyed distinct fresh key stored at_k found reads field_old
            field_new at_b differ apart eq =
          let ((a, left), inserted, e2) =
            bind-ok (apply_inserts schema map_indexes read name gen rs ps t) _ u eq in
          let (y, updated, last) =
            bind-ok (apply_updates schema map_indexes read name gen ((k, r) ∷ []) left a) _ u e2 in
          let (shows, rest) =
            apply_inserts-Shows schema map_indexes read name gen map_indexes-IsIndexes proper k c
              at_k rs ((k, r) ∷ []) ps left t a (some old) apart inserted keyed distinct stored
              (q, found, reads) in
          finish (is_modified schema map_indexes read name gen moved) y last
          ∙ apply_updates-entry k v w old r left a y b key
              (read_shown k c at_k a old (
                subst (λ o. Shows schema map_indexes read name gen c a (or_else o (some old))) fresh
                  shows))
              field_old field_new at_b differ updated
        where
          finish :
              (z : Bool) (y : Tree)
              → (if z then shadow_commit schema map_indexes gen y else ok y) ≡ ok u
              → map_indexes.find u m.index_name b ≡ map_indexes.find y m.index_name b
          finish true y done = committed_find y u b done
          finish false y done = ap (λ n. map_indexes.find n m.index_name b) (sym (ok_inj done))

      -- Over indexes that are maps: a table has one secondary index, which is unique. A transaction inserts records and
      -- updates one committed record from the value behind the key bytes to one that serializes
      -- otherwise. When `Commit` has run, the index has no entry for the old value, although each
      -- inserted record, one that has taken over that value included, is in the primary index and
      -- is read there. Among the staged keys, none but the key looked at serializes like it.
      pub commit_table-moved_value :
          (v w : V) (old s : R) (q : RecordPointer) (ps : List RecordPointer) (t u : Tree) (j : V)
          (b c d : List ℕ)
          → AllKeyed schema.primary_key rs
          → IsDistinct rs
          → get rs k ≡ none
          → schema.primary_key r ≡ some k
          → Reads read (rs ++ (k, r) ∷ []) ps
          → schema.serialize_key k ≡ ok c
          → map_indexes.find t "primary" c ≡ ok (some q)
          → read q ≡ ok old
          → schema.field_value old m.field_name ≡ some v
          → schema.field_value r m.field_name ≡ some w
          → schema.serialize_key (schema.canonicalize_key v) ≡ ok b
          → schema.serialize_key (schema.canonicalize_key w) ≢ ok b
          → get rs j ≡ some s
          → schema.serialize_key j ≡ ok d
          → map_indexes.find t "primary" d ≡ ok none
          → AreApart schema k c rs
          → AreApartChanges schema j d moved
          → commit_table schema map_indexes read name gen moved ps t ≡ ok u
          → (map_indexes.find u m.index_name b ≡ ok none)
            × ((p : RecordPointer) × (map_indexes.find u "primary" d ≡ ok (some p))
                × (read p ≡ ok s))
      unfolding get
      commit_table-moved_value v w old s q ps t u j b c d keyed distinct fresh key stored at_k found
            reads field_old field_new at_b differ entered at_j absent_j apart_k apart_j eq =
          (
            without_entry v w old q ps t u b c keyed distinct fresh key stored at_k found reads
                field_old field_new at_b differ apart_k eq,
            subst (Shows schema map_indexes read name gen d u) (entry_of fresh entered) (
                commit_table-Shows schema map_indexes read name gen map_indexes-IsIndexes proper j d
                  at_j moved ps t u none apart_j eq keyed (key, tt) distinct (get-nil k, tt) stored
                  absent_j),
          )
        where
          clash : get rs k ≡ get rs j → get rs k ≡ none → get rs j ≡ some s → ⊥
          clash p h g = cc

          skipped :
              (k == j) ≡ false
              → or_else (get moved.updates j) (or_else (get rs j) none) ≡ or_else (get rs j) none
          skipped other = rw other

          entry_of :
              get rs k ≡ none
              → get rs j ≡ some s
              → or_else (get moved.updates j) (or_else (get rs j) none) ≡ some s
          entry_of fresh entered = elim (Bool-cases (k == j)) [
            | inl same ↦ absurd (clash (ap (get rs) ((e.equals_iff k j).0 same)) fresh entered)
            | inr other ↦ skipped other ∙ ap (λ o. or_else o none) entered
          ]
