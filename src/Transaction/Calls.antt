-- ===== src/Transaction/Calls.antt =====
-- A transaction as a sequence of calls of the operations in table.go. The replies are not looked
-- at: a call that is refused is a call too.
use mathlib.Core.Path.{fun_ext, subst}
use masterkeeper.Base.{
  String, true, Option, none, some, List, [], ◌∷◌, ◌≡◌, refl, sym, ap, ◌∙◌, inl, inr, Comparable,
  arith, Option-cases, string_eq,
}
use masterkeeper.Base.Result.{Result, ok}
use masterkeeper.Transaction.State.{Error, Transaction}
use masterkeeper.Transaction.Table.{Fields, find_by_id, insert, update, upsert, delete_by_id, clear}
use masterkeeper.Transaction.View.{IsHealthy, view}
use masterkeeper.Transaction.Spec.{insert_spec, update_spec, upsert_spec, delete_spec, clear_spec}
use masterkeeper.Transaction.Refinement.{
  IsValid, Refines, touched, Refines-touched, insert-Refines, update-Refines,
}
use masterkeeper.Transaction.Deletion.{delete_by_id-Refines}
use masterkeeper.Transaction.Compound.{upsert-Refines, clear-Refines}

pub data Call (K R : Type 0) : Type 0 where
  insert_call update_call upsert_call : String → R → Call K R
  delete_call find_call : String → K → Call K R
  clear_call : String → Call K R

module _ {K R F : Type 0} ⦃e : Comparable K⦄ (fields : Fields K R F) where
  unfoldable pub perform : Call K R → Transaction K R F → Transaction K R F
  perform (insert_call name r) t = (insert fields name r t).1
  perform (update_call name r) t = (update fields name r t).1
  perform (upsert_call name r) t = (upsert fields name r t).1
  perform (delete_call name k) t = (delete_by_id fields name k t).1
  perform (find_call name k) t = (find_by_id name k t).1
  perform (clear_call name) t = (clear name t).1

  unfoldable pub run_calls : List (Call K R) → Transaction K R F → Transaction K R F
  run_calls [] t = t
  run_calls (call ∷ calls) t = run_calls calls (perform call t)

  -- The same calls on a map for each table. A record without a primary key changes nothing.
  abbrev pub keyed_spec :
      (K → String → K → Option R) → (String → K → Option R) → Option K → String → K → Option R
  keyed_spec f v none = v
  keyed_spec f v (some k) = f k

  unfoldable pub perform_spec : Call K R → (String → K → Option R) → String → K → Option R
  perform_spec (insert_call name r) v =
      keyed_spec (λ k. (insert_spec name k v (v name k) r).1) v (fields.primary_key r)
  perform_spec (update_call name r) v =
      keyed_spec (λ k. (update_spec name k v (v name k) r).1) v (fields.primary_key r)
  perform_spec (upsert_call name r) v =
      keyed_spec (λ k. (upsert_spec name k v r).1) v (fields.primary_key r)
  perform_spec (delete_call name k) v = (delete_spec name k v (v name k)).1
  perform_spec (find_call name k) v = v
  perform_spec (clear_call name) v = (clear_spec name v).1

  unfoldable pub run_spec : List (Call K R) → (String → K → Option R) → String → K → Option R
  run_spec [] v = v
  run_spec (call ∷ calls) v = run_spec calls (perform_spec call v)

  -- A transaction that the operations may be called in.
  pub record IsOpen (t : Transaction K R F) : Type 0 where
    pub healthy : IsHealthy t.committed
    pub valid : IsValid t
    pub active : t.active ≡ true

  -- One call: the view that is left, and what stays as it was.
  abbrev Follows : Transaction K R F → Transaction K R F → (String → K → Option R) → Type 0
  Follows t u v = (view u ≡ v) × IsOpen u × (u.committed ≡ t.committed)

  follows :
      {A : Type 0} (t : Transaction K R F) (m : Result (Error K) A × Transaction K R F)
      (s : Result (Error K) A × (String → K → Option R))
      → IsOpen t
      → Refines t m s
      → Follows t m.1 s.1
  follows t m s open_ (reply, eq, valid, same, active) = (
    fun_ext λ n. fun_ext λ j. eq n j,
    record {
      healthy = subst IsHealthy (sym same) open_.healthy;
      valid = valid;
      active = active ∙ open_.active;
    },
    same,
  )

  stays : (t u : Transaction K R F) → u ≡ t → IsOpen t → Follows t u (view t)
  stays t u same open_ = subst (λ w. Follows t w (view t)) (sym same) (refl, open_, refl)

  insert-nil :
      (name : String) (r : R) (t : Transaction K R F)
      → fields.primary_key r ≡ none
      → (insert fields name r t).1 ≡ t
  unfolding insert
  insert-nil name r t h = ground (arith, h)

  update-nil :
      (name : String) (r : R) (t : Transaction K R F)
      → fields.primary_key r ≡ none
      → (update fields name r t).1 ≡ t
  unfolding update
  update-nil name r t h = ground (arith, h)

  upsert-nil :
      (name : String) (r : R) (t : Transaction K R F)
      → fields.primary_key r ≡ none
      → (upsert fields name r t).1 ≡ t
  unfolding upsert
  upsert-nil name r t h = ground (arith, h)

  find-touched :
      (name : String) (k : K) (t : Transaction K R F)
      → t.active ≡ true
      → (find_by_id name k t).1 ≡ touched t name
  unfolding find_by_id
  find-touched name k t active = ground (arith, active)

  perform-Follows :
      (call : Call K R) (t : Transaction K R F)
      → IsOpen t
      → Follows t (perform call t) (perform_spec call (view t))
  unfolding perform perform_spec
  perform-Follows (insert_call name r) t open_ = elim (Option-cases (fields.primary_key r)) [
    | inl nil ↦ rw nil (stays t _ (insert-nil name r t nil) open_)
    | inr (k, key) ↦ rw key (
        follows t _ _ open_
          (insert-Refines fields name k r t open_.healthy open_.valid open_.active key))
  ]
  perform-Follows (update_call name r) t open_ = elim (Option-cases (fields.primary_key r)) [
    | inl nil ↦ rw nil (stays t _ (update-nil name r t nil) open_)
    | inr (k, key) ↦ rw key (
        follows t _ _ open_
          (update-Refines fields name k r t open_.healthy open_.valid open_.active key))
  ]
  perform-Follows (upsert_call name r) t open_ = elim (Option-cases (fields.primary_key r)) [
    | inl nil ↦ rw nil (stays t _ (upsert-nil name r t nil) open_)
    | inr (k, key) ↦ rw key (
        follows t _ _ open_
          (upsert-Refines fields name k r t open_.healthy open_.valid open_.active key))
  ]
  perform-Follows (delete_call name k) t open_ =
      follows t _ _ open_
        (delete_by_id-Refines fields name k t open_.healthy open_.valid open_.active)
  perform-Follows (find_call name k) t open_ =
      subst (λ w. Follows t w (view t)) (sym (find-touched name k t open_.active))
        (follows t (ok tt, touched t name) (ok tt, view t) open_
          (Refines-touched t name (ok tt) open_.valid))
  perform-Follows (clear_call name) t open_ =
      follows t _ _ open_ (clear-Refines name t open_.active open_.valid)

  -- In an active, valid transaction over a database that answers without errors, any sequence of
  -- inserts, updates, upserts, deletes, lookups and clears on any tables leaves the transaction
  -- seeing what the same calls make of a map from keys to records; it stays active and valid, and
  -- what it reads of the committed database stays as it was.
  pub run_calls-view :
      (calls : List (Call K R)) (t : Transaction K R F)
      → IsOpen t
      → (view (run_calls calls t) ≡ run_spec calls (view t))
        × IsOpen (run_calls calls t)
        × ((run_calls calls t).committed ≡ t.committed)
  unfolding run_calls run_spec
  run_calls-view [] t open_ = (refl, open_, refl)
  run_calls-view (call ∷ calls) t open_ =
      let (eq, open_next, same) = perform-Follows call t open_ in
      let (rest, open_last, kept) = run_calls-view calls (perform call t) open_next in
      (rest ∙ ap (run_spec calls) eq, open_last, kept ∙ same)
