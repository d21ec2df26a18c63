-- ===== src/Transaction/State.antt =====
-- tx.go: the change sets that a transaction collects, and the committed state that it reads.
use masterkeeper.Base.{
  ℕ, String, Bool, true, false, Option, none, some, List, [], ◌∷◌, ◌++◌, ◌&&◌, not, string_eq,
}
use masterkeeper.Base.Dict.{Dict, get, put}
use masterkeeper.Base.Result.{Result}
use masterkeeper.Storage.{RecordPointer}

-- state.go, `IndexMetadata`.
pub record IndexMetadata : Type 0 where
  pub index_name : String
  pub field_name : String
  pub unique : Bool
  pub ordered : Bool

-- state.go, `TableState`; the two reflected types are not looked at by the transactions.
pub record TableState : Type 0 where
  pub table_name : String
  pub index_metadata_list : List IndexMetadata

pub data Error (K : Type 0) : Type 0 where
  not_active nil_primary_key : Error K
  already_exists does_not_exist : K → String → Error K
  -- an error of the index, of the key codec or of the storage, passed on
  failed : ℕ → Error K

-- What `namedIndex.Find` answers, after `getShadowIndex` and `serializeKey`.
pub data Found (K : Type 0) : Type 0 where
  load_error serialize_error find_error : Error K → Found K
  absent : Found K
  at : RecordPointer → Found K

-- What a transaction reads of the committed database: `committedState.Tables`, the primary index of
-- each table, and its record storage.
pub record Committed (K R : Type 0) : Type 0 where
  pub tables : Dict String TableState
  pub find : String → K → Found K
  pub read_from_storage : String → RecordPointer → Result (Error K) R

pub record TableChangeSet (K R : Type 0) : Type 0 where
  pub cleared : Bool
  pub inserts : Dict K R
  pub updates : Dict K R
  pub deletes : Dict K (Unit {0})

pub record IndexChange (K F : Type 0) : Type 0 where
  pub table_name : String
  pub index_name : String
  pub index_value : Option F
  pub primary_key : K

pub record IndexChangeSet (K F : Type 0) : Type 0 where
  pub added : List (IndexChange K F)
  pub removed : List (IndexChange K F)

pub record TransactionChangeSet (K R F : Type 0) : Type 0 where
  pub table_changes : Dict String (TableChangeSet K R)
  pub index_changes : IndexChangeSet K F
  pub rollback_only : Bool
  pub rollback_reason : String

pub record Transaction (K R F : Type 0) : Type 0 where
  pub transaction_id : ℕ
  pub committed : Committed K R
  pub change_set : TransactionChangeSet K R F
  pub active : Bool

abbrev is_nil {ℓ} : {A : Type ℓ} → List A → Bool
is_nil [] = true
is_nil (x ∷ xs) = false

abbrev pub new_table_change_set : {K R : Type 0} → TableChangeSet K R
new_table_change_set = record { cleared = false; inserts = []; updates = []; deletes = [] }

unfoldable pub is_empty : {K R : Type 0} → TableChangeSet K R → Bool
is_empty c = not c.cleared && is_nil c.inserts && is_nil c.updates && is_nil c.deletes

module _ {K F : Type 0} where
  unfoldable pub add_change :
      IndexChangeSet K F → String → String → Option F → K → IndexChangeSet K F
  add_change s table index value key = record s {
    added =
        s.added
        ++ record { table_name = table; index_name = index; index_value = value; primary_key = key }
          ∷ [];
  }

  unfoldable pub remove_change :
      IndexChangeSet K F → String → String → Option F → K → IndexChangeSet K F
  remove_change s table index value key = record s {
    removed =
        s.removed
        ++ record { table_name = table; index_name = index; index_value = value; primary_key = key }
          ∷ [];
  }

module _ {K R F : Type 0} where
  abbrev pub new_transaction_change_set : TransactionChangeSet K R F
  new_transaction_change_set = record {
    table_changes = [];
    index_changes = record { added = []; removed = [] };
    rollback_only = false;
    rollback_reason = "";
  }

  abbrev pub new_transaction : ℕ → Committed K R → Transaction K R F
  new_transaction id committed = record {
    transaction_id = id;
    committed = committed;
    change_set = new_transaction_change_set;
    active = true;
  }

  -- The change set of a table as a read sees it: a missing entry reads as an empty one.
  abbrev pub changes_of : TransactionChangeSet K R F → String → TableChangeSet K R
  changes_of s name = elim (get s.table_changes name) [ none ↦ new_table_change_set | some c ↦ c ]

  -- The pointer that `GetTableChanges` returns is written through: a write puts the entry back.
  abbrev pub store_changes :
      TransactionChangeSet K R F → String → TableChangeSet K R → TransactionChangeSet K R F
  store_changes s name c = record s { table_changes = put s.table_changes name c }

  -- `GetTableChanges` enters an empty change set for a table that has none.
  unfoldable pub get_table_changes :
      TransactionChangeSet K R F → String → TableChangeSet K R × TransactionChangeSet K R F
  get_table_changes s name = elim (get s.table_changes name) [
    | none ↦ (new_table_change_set, store_changes s name new_table_change_set)
    | some c ↦ (c, s)
  ]

  unfoldable pub set_rollback_only : String → Transaction K R F → Transaction K R F
  set_rollback_only reason t = record t {
    change_set = record t.change_set { rollback_only = true; rollback_reason = reason };
  }
