-- ===== src/Commit/Unique.antt =====
-- tx.go: `validateUniqueIndexes`, with the tree of each table for its named indexes.
use masterkeeper.Base.{
  ℕ, String, Bool, true, false, not, Option, none, some, List, [], ◌∷◌, if◌then◌else◌, Comparable,
  ◌==◌, string_eq,
}
use masterkeeper.Base.Dict.{Dict, get, put, contains}
use masterkeeper.Base.Result.{Result, ok, err, ◌>>=◌}
use masterkeeper.Storage.{RecordPointer}
use masterkeeper.Transaction.State.{IndexMetadata, TableChangeSet, is_empty}
use masterkeeper.Commit.Indexes.{Indexes}
use masterkeeper.Commit.Shadow.{Schema, read_committed_record}
use masterkeeper.Commit.Apply.{Database, tree_of}

pub record DuplicateIndexError (V : Type 0) : Type 0 where
  pub table_name : String
  pub index_name : String
  pub value : V

module _ {V R T : Type 0} ⦃e : Comparable V⦄ (schema : Schema V R) (x : Indexes T)
    (read : RecordPointer → Result ℕ R) (name : String) (t : T) (m : IndexMetadata) where
  -- The value of a record in the index; a nil value is none.
  abbrev pub indexed_value : R → Option V
  indexed_value r = elim (schema.field_value r m.field_name) [
    | none ↦ none
    | some v ↦ some (schema.canonicalize_key v)
  ]

  -- One round of the loops that fill `txRemovedUnique`.
  unfoldable pub remove_value : V → Dict V (Unit {0}) → Dict V (Unit {0})
  remove_value k removed = elim (read_committed_record schema x read k t) [
    | ok (some old) ↦ elim (indexed_value old) [ none ↦ removed | some v ↦ put removed v tt ]
    | _ ↦ removed
  ]

  unfoldable pub removed_values : {A : Type 0} → Dict V A → Dict V (Unit {0}) → Dict V (Unit {0})
  removed_values [] removed = removed
  removed_values ((k, _) ∷ rest) removed = removed_values rest (remove_value k removed)

  -- Does the committed index have the value for another key? An error counts as no.
  unfoldable pub is_taken : V → V → Bool
  is_taken v k = elim (schema.serialize_key v) [
    | err f ↦ false
    | ok b ↦ elim (x.find t m.index_name b) [
      | ok (some p) ↦ elim (read p) [
        | ok r ↦ elim (schema.primary_key r) [ none ↦ true | some j ↦ not (j == k) ]
        | err f ↦ false
      ]
      | _ ↦ false
    ]
  ]

  module _ (cleared : Bool) (removed : Dict V (Unit {0})) where
    abbrev duplicate : V → Result (DuplicateIndexError V) (Dict V V)
    duplicate v = err (record { table_name = name; index_name = m.index_name; value = v })

    -- `checkConflict`; `added` is `txAddedUnique`.
    unfoldable pub check_conflict :
        V → Option V → Dict V V → Result (DuplicateIndexError V) (Dict V V)
    check_conflict k none added = ok added
    check_conflict k (some v) added = elim (get added v) [
      | some j ↦ if j == k then ok added else duplicate v
      | none ↦
          if not cleared
          then if not (contains removed v)
            then if is_taken v k then duplicate v else ok (put added v k)
            else ok (put added v k)
          else ok (put added v k)
    ]

    unfoldable pub check_records : Dict V R → Dict V V → Result (DuplicateIndexError V) (Dict V V)
    check_records [] added = ok added
    check_records ((k, r) ∷ rest) added =
        check_conflict k (indexed_value r) added >>= λ more. check_records rest more

  abbrev pub removed_of : TableChangeSet V R → Dict V (Unit {0})
  removed_of c =
      if not c.cleared then removed_values c.updates (removed_values c.deletes []) else []

  unfoldable pub validate_index : TableChangeSet V R → Result (DuplicateIndexError V) (Dict V V)
  validate_index c = check_records c.cleared (removed_of c) c.inserts [] >>= λ added.
      check_records c.cleared (removed_of c) c.updates added

module _ {V R T : Type 0} ⦃e : Comparable V⦄ (schema : Schema V R) (x : Indexes T) where
  unfoldable pub validate_indexes :
      (RecordPointer → Result ℕ R)
      → String
      → T
      → TableChangeSet V R
      → List IndexMetadata
      → Result (DuplicateIndexError V) (Unit {0})
  validate_indexes read name t c [] = ok tt
  validate_indexes read name t c (m ∷ ms) =
      let rest = validate_indexes read name t c ms in
      if not m.unique then rest else validate_index schema x read name t m c >>= λ added. rest

  unfoldable pub validate_unique_indexes :
      (String → RecordPointer → Result ℕ R)
      → Database T
      → Dict String (TableChangeSet V R)
      → Result (DuplicateIndexError V) (Unit {0})
  validate_unique_indexes read d [] = ok tt
  validate_unique_indexes read d ((name, c) ∷ rest) =
      let later = validate_unique_indexes read d rest in
      if is_empty c then later else elim (get d.tables name) [
        | none ↦ later
        | some state ↦
            validate_indexes (read name) name (tree_of x d.trees name) c state.index_metadata_list
            >>= λ done. later
      ]
