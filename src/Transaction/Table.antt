-- ===== src/Transaction/Table.antt =====
-- table.go: the operations on a table inside a transaction, and `InsertDynamic` of tx.go.
use masterkeeper.Base.{
  String, Bool, true, false, Option, none, some, List, [], ◌∷◌, if◌then◌else◌, not, Comparable,
  ◌==◌, string_eq,
}
use masterkeeper.Base.Dict.{get, put, remove, contains}
use masterkeeper.Base.Result.{Result, ok, err}
use masterkeeper.Transaction.State.{
  IndexMetadata, Error, not_active, nil_primary_key, already_exists, does_not_exist, load_error,
  serialize_error, find_error, absent, at, Committed, TableChangeSet, IndexChange, IndexChangeSet,
  TransactionChangeSet, Transaction, add_change, remove_change, get_table_changes, store_changes,
}

-- What the operations use of a record type: `getPrimaryKey` and `getFieldValue`, and `valuesEqual`
-- on field values, where `none` is Go's nil.
pub record Fields (K R F : Type 0) : Type 0 where
  pub primary_key : R → Option K
  pub field_value : R → String → Option F
  pub values_equal : Option F → Option F → Bool

module _ {K R : Type 0} ⦃e : Comparable K⦄ where
  -- The test that `insert`, `upsert` and `InsertDynamic` share: is the key in the change set, or
  -- else, unless it is cleared or deleted there, in the committed index? An error counts as no.
  unfoldable pub key_exists : Committed K R → String → TableChangeSet K R → K → Bool
  key_exists committed name c k =
      if contains c.inserts k
      then true
      else if contains c.updates k
      then true
      else if c.cleared
      then false
      else if contains c.deletes k
      then false
      else elim (get committed.tables name) [
        | none ↦ false
        | some state ↦ elim (committed.find name k) [ at p ↦ true | _ ↦ false ]
      ]

  -- The lookup that `update` and `deleteByID` share; an index error counts as not found, an
  -- unreadable record is returned.
  unfoldable pub old_record :
      Committed K R → String → TableChangeSet K R → K → Result (Error K) (Option R)
  old_record committed name c k = elim (get c.inserts k) [
    | some r ↦ ok (some r)
    | none ↦ elim (get c.updates k) [
      | some r ↦ ok (some r)
      | none ↦
          if c.cleared
          then ok none
          else if contains c.deletes k
          then ok none
          else elim (get committed.tables name) [
            | none ↦ ok none
            | some state ↦ elim (committed.find name k) [
              | at p ↦ elim (committed.read_from_storage name p) [
                | ok r ↦ ok (some r)
                | err x ↦ err x
              ]
              | _ ↦ ok none
            ]
          ]
    ]
  ]

  -- The read of the committed index in `FindByID`: here every error is returned.
  unfoldable pub find_committed : Committed K R → String → K → Result (Error K) (Option R)
  find_committed committed name k = elim (get committed.tables name) [
    | none ↦ ok none
    | some state ↦ elim (committed.find name k) [
      | load_error x ↦ err x
      | serialize_error x ↦ err x
      | find_error x ↦ err x
      | absent ↦ ok none
      | at p ↦ elim (committed.read_from_storage name p) [ ok r ↦ ok (some r) | err x ↦ err x ]
    ]
  ]

  -- The overlay of `FindByID`, in the order of its tests: the deletes come before the inserts.
  unfoldable pub find_in :
      Committed K R → String → TableChangeSet K R → K → Result (Error K) (Option R)
  find_in committed name c k =
      if c.cleared
      then ok (get c.inserts k)
      else if contains c.deletes k
      then ok none
      else elim (get c.inserts k) [
        | some r ↦ ok (some r)
        | none ↦ elim (get c.updates k) [
          | some r ↦ ok (some r)
          | none ↦ find_committed committed name k
        ]
      ]

  -- `FindByID` with a transaction. `GetTableChanges` may enter an empty change set.
  unfoldable pub find_by_id :
      {F : Type 0}
      → String
      → K
      → Transaction K R F
      → Result (Error K) (Option R) × Transaction K R F
  find_by_id name k t =
      if not t.active
      then (err not_active, t)
      else let (c, s) = get_table_changes t.change_set name in
        (find_in t.committed name c k, record t { change_set = s })

  unfoldable pub staged_update : TableChangeSet K R → K → R → TableChangeSet K R
  staged_update c k r =
      if contains c.inserts k
      then record c { inserts = put c.inserts k r }
      else record c { updates = put c.updates k r }

  unfoldable pub staged_delete : TableChangeSet K R → K → TableChangeSet K R
  staged_delete c k =
      if contains c.inserts k
      then record c { inserts = remove c.inserts k }
      else record c { updates = remove c.updates k; deletes = put c.deletes k tt }

  -- `committedState.Tables[tableName]` as the list of indexes; a missing table has no loop.
  abbrev pub indexes_of : Committed K R → String → List IndexMetadata
  indexes_of committed name = elim (get committed.tables name) [
    | none ↦ []
    | some state ↦ state.index_metadata_list
  ]

  abbrev pub with_changes :
      {F : Type 0}
      → Transaction K R F
      → TransactionChangeSet K R F
      → String
      → TableChangeSet K R
      → IndexChangeSet K F
      → Transaction K R F
  with_changes t s name c i = record t {
    change_set = record (store_changes s name c) { index_changes = i };
  }

module _ {K R F : Type 0} ⦃e : Comparable K⦄ (fields : Fields K R F) where
  open fields use {primary_key, field_value, values_equal}

  -- The loops over `IndexMetadataList` that record index changes.
  unfoldable pub add_index_changes :
      List IndexMetadata → String → R → K → IndexChangeSet K F → IndexChangeSet K F
  add_index_changes [] name r k s = s
  add_index_changes (i ∷ rest) name r k s =
      add_index_changes rest name r k
        (add_change s name i.index_name (field_value r i.field_name) k)

  unfoldable pub remove_old :
      IndexChangeSet K F → String → String → Option F → K → IndexChangeSet K F
  remove_old s name index none k = s
  remove_old s name index (some v) k = remove_change s name index (some v) k

  unfoldable pub update_index_changes :
      List IndexMetadata → String → R → R → K → IndexChangeSet K F → IndexChangeSet K F
  update_index_changes [] name old new k s = s
  update_index_changes (i ∷ rest) name old new k s =
      let before = field_value old i.field_name in
      let after = field_value new i.field_name in
      update_index_changes rest name old new k (
        if values_equal before after
        then s
        else add_change (remove_old s name i.index_name before k) name i.index_name after k)

  unfoldable pub remove_index_changes :
      List IndexMetadata → String → R → K → IndexChangeSet K F → IndexChangeSet K F
  remove_index_changes [] name old k s = s
  remove_index_changes (i ∷ rest) name old k s =
      remove_index_changes rest name old k
        (remove_old s name i.index_name (field_value old i.field_name) k)

  unfoldable pub insert_at :
      String → R → K → Transaction K R F → Result (Error K) (Unit {0}) × Transaction K R F
  insert_at name r k t =
      let (c, s) = get_table_changes t.change_set name in
      if key_exists t.committed name c k
      then (err (already_exists k name), record t { change_set = s })
      else (
        ok tt,
        with_changes t s name (record c { inserts = put c.inserts k r })
            (add_index_changes (indexes_of t.committed name) name r k s.index_changes),
      )

  -- `insert`; `InsertDynamic` of tx.go is the same but for the text of its error.
  unfoldable pub insert :
      String → R → Transaction K R F → Result (Error K) (Unit {0}) × Transaction K R F
  insert name r t =
      if not t.active
      then (err not_active, t)
      else elim (primary_key r) [ none ↦ (err nil_primary_key, t) | some k ↦ insert_at name r k t ]

  unfoldable pub update_at :
      String → R → K → Transaction K R F → Result (Error K) (Unit {0}) × Transaction K R F
  update_at name r k t =
      let (c, s) = get_table_changes t.change_set name in
      elim (old_record t.committed name c k) [
        | err x ↦ (err x, record t { change_set = s })
        | ok none ↦ (err (does_not_exist k name), record t { change_set = s })
        | ok (some old) ↦ (
          ok tt,
          with_changes t s name (staged_update c k r)
              (update_index_changes (indexes_of t.committed name) name old r k s.index_changes),
        )
      ]

  unfoldable pub update :
      String → R → Transaction K R F → Result (Error K) (Unit {0}) × Transaction K R F
  update name r t =
      if not t.active
      then (err not_active, t)
      else elim (primary_key r) [ none ↦ (err nil_primary_key, t) | some k ↦ update_at name r k t ]

  -- `upsert` enters the change set before it looks whether the transaction is active.
  unfoldable pub upsert :
      String → R → Transaction K R F → Result (Error K) (Unit {0}) × Transaction K R F
  upsert name r t = elim (primary_key r) [
    | none ↦ (err nil_primary_key, t)
    | some k ↦
        let (c, s) = get_table_changes t.change_set name in
        if key_exists t.committed name c k
        then update name r (record t { change_set = s })
        else insert name r (record t { change_set = s })
  ]

  unfoldable pub delete_by_id :
      String → K → Transaction K R F → Result (Error K) Bool × Transaction K R F
  delete_by_id name k t =
      if not t.active
      then (err not_active, t)
      else let (c, s) = get_table_changes t.change_set name in
        elim (old_record t.committed name c k) [
          | err x ↦ (err x, record t { change_set = s })
          | ok none ↦ (ok false, record t { change_set = s })
          | ok (some old) ↦ (
            ok true,
            with_changes t s name (staged_delete c k)
                (remove_index_changes (indexes_of t.committed name) name old k s.index_changes),
          )
        ]

-- The loops of `clear` over the index changes keep those of the other tables.
unfoldable pub other_tables :
    {K F : Type 0} → String → List (IndexChange K F) → List (IndexChange K F)
other_tables name [] = []
other_tables name (i ∷ rest) =
    let kept = other_tables name rest in if i.table_name == name then kept else i ∷ kept

unfoldable pub clear :
    {K R F : Type 0} → String → Transaction K R F → Result (Error K) (Unit {0}) × Transaction K R F
clear name t =
    if not t.active
    then (err not_active, t)
    else let (c, s) = get_table_changes t.change_set name in
      (
        ok tt,
        record t {
          change_set =
              record (store_changes s name
                (record { cleared = true; inserts = []; updates = []; deletes = [] })) {
                  index_changes = record {
                    added = other_tables name s.index_changes.added;
                    removed = other_tables name s.index_changes.removed;
                  };
                };
        },
      )
