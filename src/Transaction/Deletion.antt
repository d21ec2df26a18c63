-- ===== src/Transaction/Deletion.antt =====
-- `deleteByID` of table.go against the map that the transaction sees.
use masterkeeper.Base.{
  String, true, false, none, some, ◌≡◌, ap, inl, inr, Comparable, arith, Option-cases,
}
use masterkeeper.Base.Result.{ok}
use masterkeeper.Transaction.State.{
  TableChangeSet, IndexChangeSet, TransactionChangeSet, Transaction, get_table_changes, changes_of,
}
use masterkeeper.Transaction.Table.{
  Fields, remove_index_changes, delete_by_id, staged_delete, indexes_of,
}
use masterkeeper.Transaction.View.{
  IsHealthy, view, old_record-eq, staged_view-delete, get_table_changes-changes,
}
use masterkeeper.Transaction.Spec.{delete_spec}
use masterkeeper.Transaction.Invariant.{IsStaged-delete}
use masterkeeper.Transaction.Refinement.{
  IsValid, Refines, Refines-by, Refines-touched, Refines-stored, stored, touched,
}

module _ {K R F : Type 0} ⦃e : Comparable K⦄ (fields : Fields K R F) (name : String) (k : K)
    (t : Transaction K R F) (healthy : IsHealthy t.committed) (valid : IsValid t) where
  abbrev c : TableChangeSet K R
  c = changes_of t.change_set name

  abbrev s : TransactionChangeSet K R F
  s = (get_table_changes t.change_set name).1

  abbrev removed : R → IndexChangeSet K F
  removed old = remove_index_changes fields (indexes_of t.committed name) name old k s.index_changes

  pub delete-eq_ok :
      t.active ≡ true
      → (old : R) → view t name k ≡ some old
      → delete_by_id fields name k t ≡ (ok true, stored t name (staged_delete c k) (removed old))
  unfolding delete_by_id
  delete-eq_ok active old present = ground (
    arith,
    get_table_changes-changes t.change_set name,
    old_record-eq t.committed healthy name c k,
  )

  delete-eq_none :
      t.active ≡ true
      → view t name k ≡ none
      → delete_by_id fields name k t ≡ (ok false, touched t name)
  unfolding delete_by_id
  delete-eq_none active missing = ground (
    arith,
    get_table_changes-changes t.change_set name,
    old_record-eq t.committed healthy name c k,
  )

  -- In an active, valid transaction over a database that answers without errors, `deleteByID` replies
  -- whether the key was seen, and takes it out of the map that the transaction sees.
  pub delete_by_id-Refines :
      t.active ≡ true
      → Refines t (delete_by_id fields name k t) (delete_spec name k (view t) (view t name k))
  delete_by_id-Refines active = elim (Option-cases (view t name k)) [
    | inl missing ↦
        Refines-by t (delete-eq_none active missing)
          (ap (λ o. delete_spec name k (view t) o) missing) (Refines-touched t name _ valid)
    | inr (old, present) ↦
        Refines-by t (delete-eq_ok active old present)
          (ap (λ o. delete_spec name k (view t) o) present)
          (Refines-stored t name k none _ (removed old) _ valid
            (IsStaged-delete t.committed name c k (valid name))
            (staged_view-delete t.committed name c k (valid name k).0))
  ]
