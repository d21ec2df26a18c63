-- ===== src/Commit/Apply.antt =====
-- tx.go, `Commit`, step 4: the loops that bring the change sets into the indexes, with the pointers
-- that the log returned, and the state that is published. `read` is `ReadRecord` of the table's
-- storage and `Unmarshal`; the truncation in `shadowClear` is taken to succeed.
use masterkeeper.Base.{
  ℕ, ◌+◌, String, Bool, true, false, ◌&&◌, not, none, some, List, [], ◌∷◌, if◌then◌else◌, string_eq,
}
use masterkeeper.Base.Dict.{Dict, get, put}
use masterkeeper.Base.Result.{Result, ok, err, ◌>>=◌}
use masterkeeper.Storage.{RecordPointer}
use masterkeeper.Transaction.State.{TableState, TableChangeSet, is_empty}
use masterkeeper.Transaction.State as Tx
use masterkeeper.Commit.Indexes.{Indexes}
use masterkeeper.Commit.Shadow.{
  Schema, Failure, nil_primary_key, out_of_range, shadow_insert, shadow_delete, shadow_commit,
  read_committed_record,
}

-- The committed database: the state and the index trees of its tables.
pub record Database (T : Type 0) : Type 0 where
  pub generation : ℕ
  pub tables : Dict String TableState
  pub trees : Dict String T

abbrev is_nil {ℓ} : {A : Type ℓ} → List A → Bool
is_nil [] = true
is_nil (x ∷ xs) = false

abbrev pub tree_of : {T : Type 0} → Indexes T → Dict String T → String → T
tree_of x trees name = elim (get trees name) [ none ↦ x.fresh | some t ↦ t ]

abbrev pub pointers_of : Dict String (List RecordPointer) → String → List RecordPointer
pointers_of pointers name = elim (get pointers name) [ none ↦ [] | some ps ↦ ps ]

module _ {V R T : Type 0} (schema : Schema V R) (x : Indexes T) where
  module _ (read : RecordPointer → Result ℕ R) (name : String) (gen : ℕ) where
    unfoldable pub apply_deletes : Dict V (Unit {0}) → T → Result Failure T
    apply_deletes [] t = ok t
    apply_deletes ((k, _) ∷ ks) t = read_committed_record schema x read k t >>= λ old.
        shadow_delete schema x name k old gen t >>= λ u. apply_deletes ks u

    -- The pointers that are left over go to the updates.
    unfoldable pub apply_inserts :
        Dict V R → List RecordPointer → T → Result Failure (T × List RecordPointer)
    apply_inserts [] ps t = ok (t, ps)
    apply_inserts ((k, r) ∷ rs) [] t = err out_of_range
    apply_inserts ((k, r) ∷ rs) (p ∷ ps) t =
        shadow_insert schema x name r p gen t >>= λ u. apply_inserts rs ps u

    -- A record without a primary key ends in an error of `shadowInsertNoCommit`.
    unfoldable pub apply_updates : Dict V R → List RecordPointer → T → Result Failure T
    apply_updates [] ps t = ok t
    apply_updates ((j, r) ∷ rs) [] t = err out_of_range
    apply_updates ((j, r) ∷ rs) (p ∷ ps) t = elim (schema.primary_key r) [
      | none ↦ err nil_primary_key
      | some k ↦ read_committed_record schema x read k t >>= λ old.
          shadow_delete schema x name k old gen t >>= λ u.
          shadow_insert schema x name r p gen u >>= λ w. apply_updates rs ps w
    ]

    unfoldable pub is_modified : TableChangeSet V R → Bool
    is_modified c = not (is_nil c.deletes && is_nil c.inserts && is_nil c.updates)

    unfoldable pub commit_table : TableChangeSet V R → List RecordPointer → T → Result Failure T
    commit_table c ps t = apply_deletes c.deletes (if c.cleared then x.fresh else t) >>= λ u.
        apply_inserts c.inserts ps u >>= λ done. apply_updates c.updates done.1 done.0 >>= λ w.
        if is_modified c then shadow_commit schema x gen w else ok w

  module _ (read : String → RecordPointer → Result ℕ R) (tables : Dict String TableState) (gen : ℕ)
      (pointers : Dict String (List RecordPointer)) where
    unfoldable pub commit_changes :
        Dict String (TableChangeSet V R) → Dict String T → Result Failure (Dict String T)
    commit_changes [] trees = ok trees
    commit_changes ((name, c) ∷ rest) trees = elim (get tables name) [
      | none ↦ commit_changes rest trees
      | some state ↦
          commit_table (read name) name gen c (pointers_of pointers name) (tree_of x trees name)
          >>= λ u. commit_changes rest (put trees name u)
    ]

  -- `len(walRecords) > 0 || len(tableAppends) > 0`: both grow with every change of a table.
  abbrev pub has_writes : Dict String (TableChangeSet V R) → Bool
  has_writes [] = false
  has_writes ((name, c) ∷ rest) = let later = has_writes rest in if is_empty c then later else true

  -- `Commit` from its test for something to write, with the pointers of the reply of the log: the
  -- database behind it, or an error and nothing published. With nothing to write the log is not
  -- asked and the state stays.
  unfoldable pub commit_state :
      (String → RecordPointer → Result ℕ R)
      → Dict String (List RecordPointer)
      → Dict String (TableChangeSet V R)
      → Database T
      → Result Failure (Database T)
  commit_state read pointers changes d =
      if has_writes changes
      then (commit_changes read d.tables (d.generation + 1) pointers changes d.trees >>= λ trees.
          ok (record { generation = d.generation + 1; tables = d.tables; trees = trees }))
      else ok d

  -- What a transaction that begins on this database reads of it.
  unfoldable pub committed_of :
      (String → RecordPointer → Result ℕ R) → Database T → Tx.Committed V R
  committed_of read d = record {
    tables = d.tables;
    find = λ name k. elim (schema.serialize_key k) [
      | err e ↦ Tx.serialize_error (Tx.failed 0)
      | ok b ↦ elim (x.find (tree_of x d.trees name) "primary" b) [
        | err e ↦ Tx.find_error (Tx.failed e)
        | ok none ↦ Tx.absent
        | ok (some p) ↦ Tx.at p
      ]
    ];
    read_from_storage = λ name p. elim (read name p) [ err e ↦ err (Tx.failed e) | ok r ↦ ok r ];
  }
