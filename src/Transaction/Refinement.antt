-- ===== src/Transaction/Refinement.antt =====
-- The operations of table.go against a map from keys to records: what each replies, what the
-- transaction sees after it, and that it keeps the invariant of the staged changes.
use masterkeeper.Base.{
  String, true, Option, none, some, ◌≡◌, refl, sym, ap, inl, inr, if◌then◌else◌, Comparable, ◌==◌,
  arith, string_eq, Option-cases, Bool-cases,
}
use mathlib.Core.Path.{subst₂}
use masterkeeper.Base.Dict.{put}
use masterkeeper.Base.Result.{Result, ok, err}
use masterkeeper.Transaction.State.{
  Error, already_exists, does_not_exist, TableChangeSet, IndexChangeSet, TransactionChangeSet,
  Transaction, get_table_changes, changes_of,
}
use masterkeeper.Transaction.Table.{
  Fields, insert, insert_at, add_index_changes, update_index_changes, update, update_at,
  staged_update, with_changes, indexes_of,
}
use masterkeeper.Transaction.View.{
  IsHealthy, staged_view, view, key_exists-eq, old_record-eq, staged_view-insert,
  staged_view-update, get_table_changes-changes, changes_of-store, changes_of-get_table_changes,
}
use masterkeeper.Transaction.Spec.{set_view, insert_spec, update_spec}
use masterkeeper.Transaction.Invariant.{IsStaged, IsStaged-insert, IsStaged-update}

module _ {K R F : Type 0} ⦃e : Comparable K⦄ where
  -- The invariant at every table of the transaction.
  abbrev pub IsValid : Transaction K R F → Type 0
  IsValid t = (name : String) → IsStaged t.committed name (changes_of t.change_set name)

  -- A table change set is written back: that table shows it, the others are as they were.
  module _ (t : Transaction K R F) (name : String) (c : TableChangeSet K R)
      (i : IndexChangeSet K F) where
    abbrev pub stored : Transaction K R F
    stored = with_changes t (get_table_changes t.change_set name).1 name c i

    pub view-stored :
        (n : String) (j : K)
        → view stored n j ≡ (if name == n then staged_view t.committed name c j else view t n j)
    view-stored n j = ground (
      arith,
      string_eq.equals_iff name n,
      changes_of-store (get_table_changes t.change_set name).1 name c n,
      changes_of-get_table_changes t.change_set name n,
    )

    pub IsValid-stored : IsValid t → IsStaged t.committed name c → IsValid stored
    IsValid-stored valid staged n = elim (Bool-cases (name == n)) [
      | inl same ↦
          rw (changes_of-store (get_table_changes t.change_set name).1 name c n, same)
            (rw ((string_eq.equals_iff name n).0 same) at staged)
      | inr other ↦
          rw
            (
              changes_of-store (get_table_changes t.change_set name).1 name c n,
              other,
              changes_of-get_table_changes t.change_set name n,
            )
            (valid n)
    ]

  abbrev pub touched : Transaction K R F → String → Transaction K R F
  touched t name = record t { change_set = (get_table_changes t.change_set name).1 }

  -- The operation `m` on `t` replies as `s` says, leaves the view that `s` says, keeps the
  -- invariant, and changes nothing else that later operations read.
  abbrev pub Refines :
      {A : Type 0}
      → Transaction K R F
      → Result (Error K) A × Transaction K R F
      → Result (Error K) A × (String → K → Option R)
      → Type 0
  Refines t m s =
      (m.0 ≡ s.0)
      × ((n : String) (j : K) → view m.1 n j ≡ s.1 n j)
      × IsValid m.1
      × (m.1.committed ≡ t.committed)
      × (m.1.active ≡ t.active)

  pub Refines-by :
      {A : Type 0} (t : Transaction K R F) {m m' : Result (Error K) A × Transaction K R F}
      {s s' : Result (Error K) A × (String → K → Option R)}
      → m ≡ m'
      → s ≡ s'
      → Refines t m' s'
      → Refines t m s
  Refines-by t p q h = subst₂ (λ m s. Refines t m s) (sym p) (sym q) h

  pub Refines-touched :
      {A : Type 0} (t : Transaction K R F) (name : String) (x : Result (Error K) A)
      → IsValid t
      → Refines t (x, touched t name) (x, view t)
  Refines-touched t name x valid = (
    refl,
    λ n j. rw (changes_of-get_table_changes t.change_set name n),
    λ n. rw (changes_of-get_table_changes t.change_set name n) (valid n),
    refl,
    refl,
  )

  pub Refines-stored :
      {A : Type 0} (t : Transaction K R F) (name : String) (k : K) (o : Option R)
      (c : TableChangeSet K R) (i : IndexChangeSet K F) (x : Result (Error K) A)
      → IsValid t
      → IsStaged t.committed name c
      → ((j : K) → staged_view t.committed name c j ≡ (if k == j then o else view t name j))
      → Refines t (x, stored t name c i) (x, set_view (view t) name k o)
  Refines-stored t name k o c i x valid staged eq = (
    refl,
    λ n j. ground (arith, view-stored t name c i n j, string_eq.equals_iff name n, eq j),
    IsValid-stored t name c i valid staged,
    refl,
    refl,
  )

  module _ (fields : Fields K R F) (name : String) (k : K) (r : R) (t : Transaction K R F)
      (healthy : IsHealthy t.committed) (valid : IsValid t) where
    abbrev pub c : TableChangeSet K R
    c = changes_of t.change_set name

    -- The change set of the table after `GetTableChanges`, and the index changes at that point.
    abbrev pub s : TransactionChangeSet K R F
    s = (get_table_changes t.change_set name).1

    abbrev pub added : IndexChangeSet K F
    added = add_index_changes fields (indexes_of t.committed name) name r k s.index_changes

    abbrev pub replaced : R → IndexChangeSet K F
    replaced old =
        update_index_changes fields (indexes_of t.committed name) name old r k s.index_changes

    pub insert-eq_ok :
        t.active ≡ true
        → fields.primary_key r ≡ some k
        → view t name k ≡ none
        → insert fields name r t
          ≡ (ok tt, stored t name (record c { inserts = put c.inserts k r }) added)
    unfolding insert insert_at
    insert-eq_ok active key fresh = ground (
      arith,
      get_table_changes-changes t.change_set name,
      key_exists-eq t.committed healthy name c k,
    )

    insert-eq_err :
        t.active ≡ true
        → fields.primary_key r ≡ some k
        → (old : R) → view t name k ≡ some old
        → insert fields name r t ≡ (err (already_exists k name), touched t name)
    unfolding insert insert_at
    insert-eq_err active key old present = ground (
      arith,
      get_table_changes-changes t.change_set name,
      key_exists-eq t.committed healthy name c k,
    )

    update-eq_ok :
        t.active ≡ true
        → fields.primary_key r ≡ some k
        → (old : R) → view t name k ≡ some old
        → update fields name r t ≡ (ok tt, stored t name (staged_update c k r) (replaced old))
    unfolding update update_at
    update-eq_ok active key old present = ground (
      arith,
      get_table_changes-changes t.change_set name,
      old_record-eq t.committed healthy name c k,
    )

    update-eq_err :
        t.active ≡ true
        → fields.primary_key r ≡ some k
        → view t name k ≡ none
        → update fields name r t ≡ (err (does_not_exist k name), touched t name)
    unfolding update update_at
    update-eq_err active key missing = ground (
      arith,
      get_table_changes-changes t.change_set name,
      old_record-eq t.committed healthy name c k,
    )

    -- In an active, valid transaction over a database that answers without errors, `insert` of a record
    -- with a key replies and stages as an insertion into the map that the transaction sees: an error
    -- and no change where the key is there, else the record under the key.
    pub insert-Refines :
        t.active ≡ true
        → fields.primary_key r ≡ some k
        → Refines t (insert fields name r t) (insert_spec name k (view t) (view t name k) r)
    insert-Refines active key = elim (Option-cases (view t name k)) [
      | inl fresh ↦
          Refines-by t (insert-eq_ok active key fresh)
            (ap (λ o. insert_spec name k (view t) o r) fresh)
            (Refines-stored t name k (some r) _ added _ valid
              (IsStaged-insert t.committed name c k r (valid name) fresh)
              (staged_view-insert t.committed name c k r))
      | inr (old, present) ↦
          Refines-by t (insert-eq_err active key old present)
            (ap (λ o. insert_spec name k (view t) o r) present) (Refines-touched t name _ valid)
    ]

    -- In an active, valid transaction over a database that answers without errors, `update` of a record
    -- with a key sets the record where the key is seen, and is refused with no change where it is not.
    pub update-Refines :
        t.active ≡ true
        → fields.primary_key r ≡ some k
        → Refines t (update fields name r t) (update_spec name k (view t) (view t name k) r)
    update-Refines active key = elim (Option-cases (view t name k)) [
      | inl missing ↦
          Refines-by t (update-eq_err active key missing)
            (ap (λ o. update_spec name k (view t) o r) missing) (Refines-touched t name _ valid)
      | inr (old, present) ↦
          Refines-by t (update-eq_ok active key old present)
            (ap (λ o. update_spec name k (view t) o r) present)
            (Refines-stored t name k (some r) _ (replaced old) _ valid
              (IsStaged-update t.committed name c k r old (valid name) present)
              (staged_view-update t.committed name c k r))
    ]
