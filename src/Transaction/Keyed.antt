-- ===== src/Transaction/Keyed.antt =====
-- Every call of the operations on tables keeps the staged records under their keys.
use masterkeeper.Base.{
  String, true, Option, none, some, List, [], ◌∷◌, ◌≡◌, refl, sym, ap, inl, inr, Comparable, arith,
  Option-cases, Bool-cases, string_eq,
}
use mathlib.Core.Path.{subst}
use masterkeeper.Base.Result.{Result, ok, err}
use masterkeeper.Transaction.State.{Error, Transaction, get_table_changes}
use masterkeeper.Transaction.Table.{
  Fields, find_by_id, insert, insert_at, update, update_at, upsert, delete_by_id, clear,
  staged_update, staged_delete, key_exists, old_record, indexes_of, update_index_changes,
  remove_index_changes,
}
use masterkeeper.Transaction.View.{get_table_changes-changes}
use masterkeeper.Transaction.Refinement.{touched}
use masterkeeper.Transaction.Compound.{clear-eq, emptied_changes, emptied_index_changes}
use masterkeeper.Transaction.Calls.{
  Call, insert_call, update_call, upsert_call, delete_call, find_call, clear_call, perform,
  run_calls,
}
use masterkeeper.Transaction.KeyedChanges.{
  IsKeyed, HasKeys, HasKeys-touched, HasKeys-stored, IsKeyed-insert, IsKeyed-update, IsKeyed-delete,
}

module _ {K R F : Type 0} ⦃e : Comparable K⦄ (fields : Fields K R F) where
  -- The staged changes, as an operation reads and writes them.
  module _ (t : Transaction K R F) (name : String) (h : HasKeys fields t) where
    changes-IsKeyed : IsKeyed fields (get_table_changes t.change_set name).0
    changes-IsKeyed =
        subst (IsKeyed fields) (sym (get_table_changes-changes t.change_set name)) (h.keyed name)

    insert_at-HasKeys :
        (r : R) (k : K)
        → fields.primary_key r ≡ some k
        → HasKeys fields (insert_at fields name r k t).1
    unfolding insert_at
    insert_at-HasKeys r k key =
        elim (Bool-cases (key_exists t.committed name (get_table_changes t.change_set name).0 k)) [
          | inl there ↦ rw there (HasKeys-touched fields t name h)
          | inr other ↦
              rw other (
                HasKeys-stored fields t name _ _ h
                  (IsKeyed-insert fields _ k r key changes-IsKeyed))
        ]

    -- A transaction that is not active is left alone, and so is it by a record without a key.
    closed : {u : Transaction K R F} → u ≡ t → HasKeys fields u
    closed same = subst (HasKeys fields) (sym same) h

    insert-HasKeys : (r : R) → HasKeys fields (insert fields name r t).1
    unfolding insert
    insert-HasKeys r = elim (Option-cases (fields.primary_key r)) [
      | inl nil ↦ closed (ground (arith, nil))
      | inr (k, key) ↦ elim (Bool-cases t.active) [
        | inl active ↦
            subst (HasKeys fields) (ground (arith, active, key)) (insert_at-HasKeys r k key)
        | inr off ↦ closed (ground (arith, off))
      ]
    ]

    update_at-HasKeys :
        (r : R) (k : K)
        → fields.primary_key r ≡ some k
        → HasKeys fields (update_at fields name r k t).1
    unfolding update_at
    update_at-HasKeys r k key =
        by_old (old_record t.committed name (get_table_changes t.change_set name).0 k) refl
      where
        by_old :
            (m : Result (Error K) (Option R))
            → old_record t.committed name (get_table_changes t.change_set name).0 k ≡ m
            → HasKeys fields (update_at fields name r k t).1
        by_old (err x) eq =
            subst (HasKeys fields) (ground (arith, eq)) (HasKeys-touched fields t name h)
        by_old (ok none) eq =
            subst (HasKeys fields) (ground (arith, eq)) (HasKeys-touched fields t name h)
        by_old (ok (some old)) eq = subst (HasKeys fields) (ground (arith, eq)) (
            HasKeys-stored fields t name (staged_update (get_table_changes t.change_set name).0 k r)
              (update_index_changes fields (indexes_of t.committed name) name old r k
                (get_table_changes t.change_set name).1.index_changes)
              h (IsKeyed-update fields _ k r key changes-IsKeyed))

    update-HasKeys : (r : R) → HasKeys fields (update fields name r t).1
    unfolding update
    update-HasKeys r = elim (Option-cases (fields.primary_key r)) [
      | inl nil ↦ closed (ground (arith, nil))
      | inr (k, key) ↦ elim (Bool-cases t.active) [
        | inl active ↦
            subst (HasKeys fields) (ground (arith, active, key)) (update_at-HasKeys r k key)
        | inr off ↦ closed (ground (arith, off))
      ]
    ]

    delete_by_id-HasKeys : (k : K) → HasKeys fields (delete_by_id fields name k t).1
    unfolding delete_by_id
    delete_by_id-HasKeys k = elim (Bool-cases t.active) [
      | inl active ↦
          by_old active (old_record t.committed name (get_table_changes t.change_set name).0 k) refl
      | inr off ↦ closed (ground (arith, off))
    ]
      where
        by_old :
            t.active ≡ true
            → (m : Result (Error K) (Option R))
            → old_record t.committed name (get_table_changes t.change_set name).0 k ≡ m
            → HasKeys fields (delete_by_id fields name k t).1
        by_old active (err x) eq =
            subst (HasKeys fields) (ground (arith, active, eq)) (HasKeys-touched fields t name h)
        by_old active (ok none) eq =
            subst (HasKeys fields) (ground (arith, active, eq)) (HasKeys-touched fields t name h)
        by_old active (ok (some old)) eq = subst (HasKeys fields) (ground (arith, active, eq)) (
            HasKeys-stored fields t name (staged_delete (get_table_changes t.change_set name).0 k)
              (remove_index_changes fields (indexes_of t.committed name) name old k
                (get_table_changes t.change_set name).1.index_changes)
              h (IsKeyed-delete fields _ k changes-IsKeyed))

    find_by_id-HasKeys : (k : K) → HasKeys fields (find_by_id name k t).1
    unfolding find_by_id
    find_by_id-HasKeys k = elim (Bool-cases t.active) [
      | inl active ↦
          subst (HasKeys fields) (ground (arith, active)) (HasKeys-touched fields t name h)
      | inr off ↦ closed (ground (arith, off))
    ]

    clear-HasKeys : HasKeys fields (clear name t).1
    unfolding clear
    clear-HasKeys = elim (Bool-cases t.active) [
      | inl active ↦ subst (HasKeys fields) (ap (λ m. m.1) (sym (clear-eq name t active))) (
          HasKeys-stored fields t name (emptied_changes name t) (emptied_index_changes name t) h
            (record {
              inserts_keyed = tt;
              updates_keyed = tt;
              inserts_distinct = tt;
              updates_distinct = tt;
            }))
      | inr off ↦ closed (ground (arith, off))
    ]

  upsert-HasKeys :
      (t : Transaction K R F) (name : String) (r : R)
      → HasKeys fields t
      → HasKeys fields (upsert fields name r t).1
  unfolding upsert
  upsert-HasKeys t name r h = elim (Option-cases (fields.primary_key r)) [
    | inl nil ↦ subst (HasKeys fields) (ground (arith, nil)) h
    | inr (k, key) ↦
        elim (Bool-cases (key_exists t.committed name (get_table_changes t.change_set name).0 k)) [
          | inl there ↦
              subst (HasKeys fields) (ground (arith, key, there))
                (update-HasKeys (touched t name) name (HasKeys-touched fields t name h) r)
          | inr other ↦
              subst (HasKeys fields) (ground (arith, key, other))
                (insert-HasKeys (touched t name) name (HasKeys-touched fields t name h) r)
        ]
  ]

  perform-HasKeys :
      (call : Call K R) (t : Transaction K R F)
      → HasKeys fields t
      → HasKeys fields (perform fields call t)
  unfolding perform
  perform-HasKeys (insert_call name r) t h = insert-HasKeys t name h r
  perform-HasKeys (update_call name r) t h = update-HasKeys t name h r
  perform-HasKeys (upsert_call name r) t h = upsert-HasKeys t name r h
  perform-HasKeys (delete_call name k) t h = delete_by_id-HasKeys t name h k
  perform-HasKeys (find_call name k) t h = find_by_id-HasKeys t name h k
  perform-HasKeys (clear_call name) t h = clear-HasKeys t name h

  -- Any sequence of calls, refused ones included and on an inactive transaction too, keeps this:
  -- every table has one change set, and each staged insert and update of it stands once, under
  -- the primary key of its record.
  pub run_calls-HasKeys :
      (calls : List (Call K R)) (t : Transaction K R F)
      → HasKeys fields t
      → HasKeys fields (run_calls fields calls t)
  unfolding run_calls
  run_calls-HasKeys [] t h = h
  run_calls-HasKeys (call ∷ calls) t h =
      run_calls-HasKeys calls (perform fields call t) (perform-HasKeys call t h)
