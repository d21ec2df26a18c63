-- ===== src/Transaction/Reinsertion.antt =====
-- A key that a transaction deletes and inserts again, as `insert` and `FindByID` treat it.
use mathlib.Core.Path.{subst}
use masterkeeper.Base.{
  String, true, false, none, some, ◌≡◌, sym, ap, ◌∙◌, Comparable, arith, string_eq,
}
use masterkeeper.Base.Dict.{get, put, get-put, equals_refl}
use masterkeeper.Base.Result.{ok}
use masterkeeper.Transaction.State.{TableChangeSet, Transaction, get_table_changes, changes_of}
use masterkeeper.Transaction.Table.{
  Fields, find_in, find_by_id, insert, delete_by_id, staged_delete,
}
use masterkeeper.Transaction.View.{IsHealthy, view, get_table_changes-changes, changes_of-store}
use masterkeeper.Transaction.Invariant.{visible_open}
use masterkeeper.Transaction.Spec.{insert_spec, delete_spec}
use masterkeeper.Transaction.Deletion.{delete-eq_ok, delete_by_id-Refines}
use masterkeeper.Transaction.Refinement.{IsValid, Refines, insert-eq_ok, insert-Refines}

module _ {K R F : Type 0} ⦃e : Comparable K⦄ (fields : Fields K R F) (name : String) (k : K) (r : R)
    (t : Transaction K R F) where
  abbrev deleted : Transaction K R F
  deleted = (delete_by_id fields name k t).1

  abbrev pub reinserted : Transaction K R F
  reinserted = (insert fields name r deleted).1

  module _ (healthy : IsHealthy t.committed) (valid : IsValid t) (active : t.active ≡ true)
      (key : fields.primary_key r ≡ some k) (old : R) (present : view t name k ≡ some old)
      (fresh : get (changes_of t.change_set name).inserts k ≡ none) where
    deletion : Refines t (delete_by_id fields name k t) (delete_spec name k (view t) (some old))
    deletion = rw present at (delete_by_id-Refines fields name k t healthy valid active)

    gone : view deleted name k ≡ none
    gone = deletion.1 name k ∙ rw (equals_refl name, equals_refl k)

    healthy' : IsHealthy deleted.committed
    healthy' = subst IsHealthy (sym deletion.3) healthy

    insertion :
        Refines deleted (insert fields name r deleted) (insert_spec name k (view deleted) none r)
    insertion =
        rw gone at
          (insert-Refines fields name k r deleted healthy' deletion.2 (deletion.4 ∙ active) key)

    -- The change set that the deletion leaves, and the one after the insertion.
    abbrev c1 : TableChangeSet K R
    c1 = staged_delete (changes_of t.change_set name) k

    changes-deleted : changes_of deleted.change_set name ≡ c1
    changes-deleted =
        ap (λ m. changes_of m.1.change_set name)
          (delete-eq_ok fields name k t healthy valid active old present)
        ∙ changes_of-store (get_table_changes t.change_set name).1 name c1 name
        ∙ rw (equals_refl name)

    changes-reinserted :
        changes_of reinserted.change_set name ≡ record c1 { inserts = put c1.inserts k r }
    changes-reinserted =
        ap (λ m. changes_of m.1.change_set name)
          (insert-eq_ok fields name k r deleted healthy' deletion.2 (deletion.4 ∙ active) key gone)
        ∙ changes_of-store (get_table_changes deleted.change_set name).1 name _ name
        ∙ rw (equals_refl name, changes-deleted)

    still_deleted : (c1.cleared ≡ false) × (get c1.deletes k ≡ some tt)
    unfolding staged_delete
    still_deleted =
        let open_ =
          visible_open t.committed name (changes_of t.change_set name) k old (valid name k) fresh
            present in
        ground (
          arith,
          fresh,
          open_.0,
          get-put (changes_of t.change_set name).deletes k tt k,
          equals_refl k,
        )

    find-reinserted : (find_by_id name k reinserted).0 ≡ ok none
    unfolding find_by_id find_in
    find-reinserted = ground (
      arith,
      get_table_changes-changes reinserted.change_set name,
      changes-reinserted,
      still_deleted,
      insertion.4,
      deletion.4,
      active,
    )

    -- An active, valid transaction over a database that answers without errors sees a record that is
    -- not staged as an insert, deletes it and inserts the key again: the other operations then see the new record, and `FindByID` reports it missing.
    pub find_by_id-reinserted :
        (view reinserted name k ≡ some r) × ((find_by_id name k reinserted).0 ≡ ok none)
    find_by_id-reinserted =
        (insertion.1 name k ∙ rw (equals_refl name, equals_refl k), find-reinserted)
