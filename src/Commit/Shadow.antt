-- ===== src/Commit/Shadow.antt =====
-- db.go: `shadowInsertNoCommit`, `shadowDeleteNoCommit`, `shadowCommit` and `shadowClear`, and
-- `readCommittedRecord` of tx.go. What an index is left as behind an error is not modelled.
use masterkeeper.Base.{ℕ, String, Option, none, some, List, [], ◌∷◌, if◌then◌else◌, string_eq}
use masterkeeper.Base.Result.{Result, ok, err, ◌>>=◌}
use masterkeeper.Storage.{RecordPointer}
use masterkeeper.Transaction.State.{IndexMetadata}
use masterkeeper.Index.Key.{Error as KeyError, serialize_composite_key}
use masterkeeper.Commit.Indexes.{Indexes}

-- What the commit uses of records and values: `getPrimaryKey`, `getFieldValue`, `canonicalizeKey`,
-- `serializeKey` and `extractIndexMetadataList`, where `none` is Go's nil. Keys and field values are
-- both Go's `any`.
pub record Schema (V R : Type 0) : Type 0 where
  pub primary_key : R → Option V
  pub field_value : R → String → Option V
  pub canonicalize_key : V → V
  pub serialize_key : V → Result KeyError (List ℕ)
  pub extract_index_metadata_list : String → R → List IndexMetadata

pub data Failure : Type 0 where
  nil_primary_key : Failure
  key_failed : KeyError → Failure
  tree_failed read_failed : ℕ → Failure
  -- the panic of an index that is out of range
  out_of_range : Failure

abbrev pub of_tree {ℓ} : {A : Type ℓ} → Result ℕ A → Result Failure A
of_tree (ok a) = ok a
of_tree (err x) = err (tree_failed x)

abbrev pub of_key {ℓ} : {A : Type ℓ} → Result KeyError A → Result Failure A
of_key (ok a) = ok a
of_key (err x) = err (key_failed x)

module _ {V R T : Type 0} (schema : Schema V R) (x : Indexes T) where
  -- The key of an entry in a secondary index: the value, and with it the primary key where the
  -- index is not unique.
  abbrev pub entry_key : IndexMetadata → V → V → Result KeyError (List ℕ)
  entry_key m v k =
      if m.unique
      then schema.serialize_key (schema.canonicalize_key v)
      else serialize_composite_key schema.serialize_key (schema.canonicalize_key v) k

  -- One round of the loops over the secondary indexes; a nil value has no entry.
  unfoldable pub insert_entry :
      IndexMetadata → Option V → V → RecordPointer → ℕ → T → Result Failure T
  insert_entry m none k p gen t = ok t
  insert_entry m (some v) k p gen t =
      of_key (entry_key m v k) >>= λ b. of_tree (x.insert t m.index_name b p gen)

  unfoldable pub delete_entry : IndexMetadata → Option V → V → ℕ → T → Result Failure T
  delete_entry m none k gen t = ok t
  delete_entry m (some v) k gen t =
      of_key (entry_key m v k) >>= λ b. of_tree (x.delete t m.index_name b gen)

  unfoldable pub insert_entries :
      List IndexMetadata → R → V → RecordPointer → ℕ → T → Result Failure T
  insert_entries [] r k p gen t = ok t
  insert_entries (m ∷ ms) r k p gen t =
      insert_entry m (schema.field_value r m.field_name) k p gen t >>= λ u.
      insert_entries ms r k p gen u

  unfoldable pub delete_entries : List IndexMetadata → R → V → ℕ → T → Result Failure T
  delete_entries [] r k gen t = ok t
  delete_entries (m ∷ ms) r k gen t =
      delete_entry m (schema.field_value r m.field_name) k gen t >>= λ u.
      delete_entries ms r k gen u

  -- The entries of the old record, where there is one, in the secondary indexes.
  unfoldable pub delete_old : String → V → Option R → ℕ → T → Result Failure T
  delete_old name k none gen t = ok t
  delete_old name k (some r) gen t =
      delete_entries (schema.extract_index_metadata_list name r) r k gen t

  unfoldable pub shadow_insert : String → R → RecordPointer → ℕ → T → Result Failure T
  shadow_insert name r p gen t = elim (schema.primary_key r) [
    | none ↦ err nil_primary_key
    | some k ↦ of_key (schema.serialize_key k) >>= λ b.
        of_tree (x.insert t "primary" b p gen) >>= λ u.
        insert_entries (schema.extract_index_metadata_list name r) r k p gen u
  ]

  unfoldable pub shadow_delete : String → V → Option R → ℕ → T → Result Failure T
  shadow_delete name k old gen t = of_key (schema.serialize_key k) >>= λ b.
      of_tree (x.delete t "primary" b gen) >>= λ u. delete_old name k old gen u

  unfoldable pub shadow_commit : ℕ → T → Result Failure T
  shadow_commit gen t = of_tree (x.commit t gen)

  -- `readCommittedRecord` on a table of the state: an error of the index counts as no record.
  unfoldable pub read_committed_record :
      (RecordPointer → Result ℕ R) → V → T → Result Failure (Option R)
  read_committed_record read k t = of_key (schema.serialize_key k) >>= λ b.
      elim (x.find t "primary" b) [
        | err e ↦ ok none
        | ok none ↦ ok none
        | ok (some p) ↦ elim (read p) [ err e ↦ err (read_failed e) | ok r ↦ ok (some r) ]
      ]
