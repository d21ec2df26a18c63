-- ===== src/Commit/Run.antt =====
-- From the operations of a transaction through its commit to the state that is published.
use masterkeeper.Base.{
  ℕ, String, List, ◌++◌, Option, none, some, ◌≡◌, refl, sym, ap, ◌∙◌, Comparable, Bool, string_eq,
}
use mathlib.Core.Path.{subst, subst₂, fun_ext}
use masterkeeper.Base.Dict.{Dict, get, IsDistinct}
use masterkeeper.Base.Result.{Result, ok}
use masterkeeper.Storage.{RecordPointer}
use masterkeeper.Transaction.State.{
  Transaction, TableState, TableChangeSet, new_transaction, changes_of, new_table_change_set,
}
use masterkeeper.Transaction.Table.{Fields}
use masterkeeper.Transaction.View.{IsHealthy, view, staged_view, staged_view-empty, committed_view}
use masterkeeper.Transaction.Invariant.{IsStaged-empty, IsStaged}
use masterkeeper.Transaction.Calls.{Call, run_calls, run_spec, IsOpen, run_calls-view}
use masterkeeper.Transaction.KeyedChanges.{HasKeys, IsKeyed}
use masterkeeper.Transaction.Keyed.{run_calls-HasKeys}
use masterkeeper.Commit.Indexes.{Indexes, IsIndexes}
use masterkeeper.Commit.Shadow.{Schema}
use masterkeeper.Commit.Apply.{Database, pointers_of, commit_state, committed_of}
use masterkeeper.Commit.Entries.{IsSchema}
use masterkeeper.Commit.Loops.{Reads}
use masterkeeper.Commit.Published.{IsReady, AreApartIn, commit_state-view}
use masterkeeper.Commit.Idle.{staged_changes}
use masterkeeper.Commit.Maps.{Tree, map_indexes, map_indexes-IsIndexes}

-- The operations of a table look at the same fields of a record as the commit.
abbrev pub fields_of : {V R : Type 0} → Schema V R → (Option V → Option V → Bool) → Fields V R V
fields_of schema values_equal = record {
  primary_key = schema.primary_key;
  field_value = schema.field_value;
  values_equal = values_equal;
}

module _ {V R T : Type 0} ⦃e : Comparable V⦄ (schema : Schema V R) (x : Indexes T)
    (values_equal : Option V → Option V → Bool) (read : String → RecordPointer → Result ℕ R) where
  -- A new transaction on the database, behind the calls.
  abbrev pub called : Database T → ℕ → List (Call V R) → Transaction V R V
  called d id calls =
      run_calls (fields_of schema values_equal) calls
        (new_transaction id (committed_of schema x read d))

  -- The log has stored the staged records of every table under the pointers of its reply.
  abbrev pub AreStored :
      Dict String (List RecordPointer) → Dict String (TableChangeSet V R) → Type 0
  AreStored pointers changes =
      (name : String) (c : TableChangeSet V R)
      → get changes name ≡ some c
      → Reads (read name) (c.inserts ++ c.updates) (pointers_of pointers name)

  module _ (d : Database T) (id : ℕ) (calls : List (Call V R))
      (healthy : IsHealthy (committed_of schema x read d)) where
    abbrev began : Transaction V R V
    began = new_transaction id (committed_of schema x read d)

    began-IsOpen : IsOpen (fields_of schema values_equal) began
    unfolding get
    began-IsOpen = record {
      healthy = healthy;
      valid = λ name. IsStaged-empty _ name;
      active = refl;
    }

    began-HasKeys : HasKeys (fields_of schema values_equal) began
    unfolding get
    began-HasKeys = record {
      tables_distinct = tt;
      keyed = λ name. record {
        inserts_keyed = tt;
        updates_keyed = tt;
        inserts_distinct = tt;
        updates_distinct = tt;
      };
    }

    began-view : view began ≡ committed_view (committed_of schema x read d)
    unfolding get
    began-view = fun_ext λ n. fun_ext λ j. staged_view-empty (committed_of schema x read d) n j

    -- What the commit needs of the changes, every sequence of calls gives it.
    pub called-IsReady :
        (pointers : Dict String (List RecordPointer))
        → AreStored pointers (called d id calls).change_set.table_changes
        → (name : String) (c : TableChangeSet V R)
        → get (called d id calls).change_set.table_changes name ≡ some c
        → IsReady schema x read d pointers name c
    called-IsReady pointers are_stored name c here =
        let (eq, open_, same) =
          run_calls-view (fields_of schema values_equal) calls began began-IsOpen in
        let keys = run_calls-HasKeys (fields_of schema values_equal) calls began began-HasKeys in
        let valid = subst₂ (λ m q. IsStaged m name q) same (at_name here) (open_.valid name) in
        let keyed =
          subst (IsKeyed (fields_of schema values_equal)) (at_name here) (keys.keyed name) in
        record {
          staged = valid;
          inserts_keyed = keyed.inserts_keyed;
          updates_keyed = keyed.updates_keyed;
          inserts_distinct = keyed.inserts_distinct;
          updates_distinct = keyed.updates_distinct;
          stored = are_stored name c here;
        }
      where
        at_name :
            get (called d id calls).change_set.table_changes name ≡ some c
            → changes_of (called d id calls).change_set name ≡ c
        at_name h =
            ap
              (λ o. elim o as (λ o. TableChangeSet V R) [
                | none ↦ new_table_change_set
                | some c ↦ c
              ])
              h

    pub called-IsDistinct : IsDistinct (called d id calls).change_set.table_changes
    called-IsDistinct =
        (run_calls-HasKeys (fields_of schema values_equal) calls began
          began-HasKeys).tables_distinct

    called-view :
        (name : String) (j : V)
        → staged_view
            (committed_of schema x read d)
            name
            (staged_changes (called d id calls).change_set.table_changes name)
            j
          ≡ run_spec
              (fields_of schema values_equal)
              calls
              (committed_view (committed_of schema x read d))
              name
              j
    called-view name j =
        let (eq, open_, same) =
          run_calls-view (fields_of schema values_equal) calls began began-IsOpen in
        ap (λ m. staged_view m name (changes_of (called d id calls).change_set name) j) (sym same)
        ∙ ap (λ v. v name j) (eq ∙ ap (run_spec (fields_of schema values_equal) calls) began-view)

    pub commit_state-called :
        (laws : IsIndexes x) (proper : IsSchema schema)
        (pointers : Dict String (List RecordPointer)) (done : Database T)
        → AreStored pointers (called d id calls).change_set.table_changes
        → commit_state schema x read pointers (called d id calls).change_set.table_changes d
          ≡ ok done
        → (name : String) (state : TableState) (j : V) → get d.tables name ≡ some state
        → AreApartIn schema x (called d id calls).change_set.table_changes name j
        → committed_view (committed_of schema x read done) name j
          ≡ run_spec
              (fields_of schema values_equal)
              calls
              (committed_view (committed_of schema x read d))
              name
              j
    commit_state-called laws proper pointers done are_stored eq name state j known apart =
        commit_state-view schema x laws proper read pointers
          (called d id calls).change_set.table_changes d done healthy called-IsDistinct
          (called-IsReady pointers are_stored) eq name state j known apart
        ∙ called-view name j

module _ {V R : Type 0} ⦃e : Comparable V⦄ (schema : Schema V R)
    (values_equal : Option V → Option V → Bool) (read : String → RecordPointer → Result ℕ R)
    (d : Database Tree) (id : ℕ) (calls : List (Call V R))
    (healthy : IsHealthy (committed_of schema map_indexes read d)) where
  -- Over indexes that are maps: let a transaction begin on a database that answers without errors,
  -- run any sequence of calls, and let the log store its staged records under the pointers of its
  -- reply. If `Commit` then succeeds, the state behind it holds in every table of the database,
  -- under every key, what the same calls make of the map of the records that were committed before.
  -- No other key that the transaction has staged for the table serializes like this key, and no
  -- secondary index is named like the primary one.
  pub commit_state-run_calls :
      (proper : IsSchema schema) (pointers : Dict String (List RecordPointer))
      (done : Database Tree)
      → AreStored schema map_indexes values_equal read pointers
          (called schema map_indexes values_equal read d id calls).change_set.table_changes
      → commit_state schema map_indexes read pointers
          (called schema map_indexes values_equal read d id calls).change_set.table_changes
          d
        ≡ ok done
      → (name : String) (state : TableState) (j : V) → get d.tables name ≡ some state
      → AreApartIn schema map_indexes
          (called schema map_indexes values_equal read d id calls).change_set.table_changes
          name
          j
      → committed_view (committed_of schema map_indexes read done) name j
        ≡ run_spec
            (fields_of schema values_equal)
            calls
            (committed_view (committed_of schema map_indexes read d))
            name
            j
  commit_state-run_calls proper pointers done stored eq name state j known apart =
      commit_state-called schema map_indexes values_equal read d id calls healthy
        map_indexes-IsIndexes proper pointers done stored eq name state j known apart
