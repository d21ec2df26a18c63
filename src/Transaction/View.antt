-- ===== src/Transaction/View.antt =====
-- The abstract view of a transaction: for each table a partial map from keys to records, with the
-- staged changes over the committed records, and what the parts of the operations do to it.
use masterkeeper.Base.{
  String, Bool, true, false, Option, none, some, ◌≡◌, refl, ◌⊎◌, inl, inr, if◌then◌else◌,
  Comparable, ◌==◌, arith, string_eq, Option-cases,
}
use masterkeeper.Base.Dict.{get, put, contains, get-put, get-remove, equals_refl}
use masterkeeper.Base.Result.{ok, err}
use masterkeeper.Storage.{RecordPointer}
use masterkeeper.Transaction.State.{
  absent, at, Committed, TableChangeSet, TransactionChangeSet, Transaction, get_table_changes,
  store_changes, changes_of, new_table_change_set,
}
use masterkeeper.Transaction.Table.{
  staged_update, staged_delete, key_exists, old_record, find_committed,
}

-- The index and the storage of every table answer without an error.
abbrev pub IsHealthy : {K R : Type 0} → Committed K R → Type 0
IsHealthy {K} {R} committed =
    (name : String) (k : K)
    → (committed.find name k ≡ absent)
      ⊎ ((p : RecordPointer) × (r : R) × (committed.find name k ≡ at p)
          × (committed.read_from_storage name p ≡ ok r))

abbrev pub is_some : {R : Type 0} → Option R → Bool
is_some none = false
is_some (some r) = true

module _ {K R : Type 0} ⦃e : Comparable K⦄ where
  -- The committed record of a key.
  unfoldable pub committed_view : Committed K R → String → K → Option R
  committed_view committed name k = elim (get committed.tables name) [
    | none ↦ none
    | some state ↦ elim (committed.find name k) [
      | at p ↦ elim (committed.read_from_storage name p) [ ok r ↦ some r | err x ↦ none ]
      | _ ↦ none
    ]
  ]

  -- What the changes leave visible of the committed records.
  unfoldable pub base_view : Committed K R → String → TableChangeSet K R → K → Option R
  base_view committed name c k =
      if c.cleared
      then none
      else if contains c.deletes k
      then none
      else committed_view committed name k

  unfoldable pub staged_view : Committed K R → String → TableChangeSet K R → K → Option R
  staged_view committed name c k = elim (get c.inserts k) [
    | some r ↦ some r
    | none ↦ elim (get c.updates k) [ some r ↦ some r | none ↦ base_view committed name c k ]
  ]

  pub staged_view-empty :
      (committed : Committed K R) (name : String) (k : K)
      → staged_view committed name new_table_change_set k ≡ committed_view committed name k
  unfolding staged_view base_view get
  staged_view-empty committed name k = refl

  module _ (committed : Committed K R) (healthy : IsHealthy committed) where
    pub key_exists-eq :
        (name : String) (c : TableChangeSet K R) (k : K)
        → key_exists committed name c k ≡ is_some (staged_view committed name c k)
    unfolding key_exists staged_view base_view committed_view
    key_exists-eq name c k = ground (arith, healthy name k)

    pub old_record-eq :
        (name : String) (c : TableChangeSet K R) (k : K)
        → old_record committed name c k ≡ ok (staged_view committed name c k)
    unfolding old_record staged_view base_view committed_view
    old_record-eq name c k = ground (arith, healthy name k)

    pub find_committed-eq :
        (name : String) (k : K)
        → find_committed committed name k ≡ ok (committed_view committed name k)
    unfolding find_committed committed_view
    find_committed-eq name k = ground (arith, healthy name k)

  module _ (committed : Committed K R) (name : String) (c : TableChangeSet K R) (k : K) where
    -- A record staged as an insert.
    pub staged_view-insert :
        (r : R) (j : K)
        → staged_view committed name (record c { inserts = put c.inserts k r }) j
          ≡ (if k == j then some r else staged_view committed name c j)
    unfolding staged_view base_view
    staged_view-insert r j = ground (arith, get-put c.inserts k r j)

    pub staged_view-update :
        (r : R) (j : K)
        → staged_view committed name (staged_update c k r) j
          ≡ (if k == j then some r else staged_view committed name c j)
    unfolding staged_view base_view staged_update
    staged_view-update r j =
        ground (arith, e.equals_iff k j, get-put c.inserts k r j, get-put c.updates k r j)

    -- A deletion, where nothing is visible below a staged insert.
    pub staged_view-delete :
        ((r : R)
          → get c.inserts k ≡ some r
          → (get c.updates k ≡ none) × (base_view committed name c k ≡ none))
        → (j : K)
        → staged_view committed name (staged_delete c k) j
          ≡ (if k == j then none else staged_view committed name c j)
    unfolding staged_view base_view staged_delete
    staged_view-delete hidden j = elim (Option-cases (get c.inserts k)) [
      | inl fresh ↦ ground (
        arith,
        fresh,
        e.equals_iff k j,
        get-remove c.updates k j,
        get-put c.deletes k tt j,
        get-put c.deletes k tt k,
        equals_refl k,
      )
      | inr (r, present) ↦
          ground (arith, present, hidden r, e.equals_iff k j, get-remove c.inserts k j)
    ]

module _ {K R F : Type 0} ⦃e : Comparable K⦄ where
  -- Entering an empty change set leaves what is read of every table alone.
  pub get_table_changes-changes :
      (s : TransactionChangeSet K R F) (name : String)
      → (get_table_changes s name).0 ≡ changes_of s name
  unfolding get_table_changes
  get_table_changes-changes s name = ground arith

  pub changes_of-store :
      (s : TransactionChangeSet K R F) (name : String) (c : TableChangeSet K R) (n : String)
      → changes_of (store_changes s name c) n ≡ (if name == n then c else changes_of s n)
  changes_of-store s name c n = ground (arith, get-put s.table_changes name c n)

  pub changes_of-get_table_changes :
      (s : TransactionChangeSet K R F) (name n : String)
      → changes_of (get_table_changes s name).1 n ≡ changes_of s n
  unfolding get_table_changes
  changes_of-get_table_changes s name n =
      ground
        (arith, string_eq.equals_iff name n, get-put s.table_changes name new_table_change_set n)

  -- The record that the transaction sees under a key of a table.
  abbrev pub view : Transaction K R F → String → K → Option R
  view t name k = staged_view t.committed name (changes_of t.change_set name) k
