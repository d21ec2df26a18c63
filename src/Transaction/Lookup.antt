-- ===== src/Transaction/Lookup.antt =====
-- `FindByID` of table.go against the map that the other operations see, and where the two differ.
use mathlib.Core.Path.{subst}
use masterkeeper.Base.{
  String, true, none, ◌≡◌, sym, ap, ◌∙◌, inl, inr, ◌⊎◌, Comparable, arith, Option-cases,
}
use masterkeeper.Base.Dict.{get}
use masterkeeper.Base.Result.{ok}
use masterkeeper.Transaction.State.{
  Committed, TableChangeSet, Transaction, get_table_changes, changes_of,
}
use masterkeeper.Transaction.Table.{find_in, find_by_id}
use masterkeeper.Transaction.View.{
  IsHealthy, view, staged_view, base_view, find_committed-eq, changes_of-get_table_changes,
  get_table_changes-changes,
}
use masterkeeper.Transaction.Invariant.{IsStagedAt}
use masterkeeper.Transaction.Refinement.{IsValid, touched}

module _ {K R : Type 0} ⦃e : Comparable K⦄ (committed : Committed K R)
    (healthy : IsHealthy committed) (name : String) (c : TableChangeSet K R) (k : K)
    (staged : IsStagedAt committed name c k) where
  find_in-eq :
      (get c.inserts k ≡ none) ⊎ (get c.deletes k ≡ none) ⊎ (c.cleared ≡ true)
      → find_in committed name c k ≡ ok (staged_view committed name c k)
  unfolding find_in staged_view base_view
  find_in-eq apart = elim (Option-cases (get c.updates k)) [
    | inl p ↦ ground (arith, find_committed-eq committed healthy name k)
    | inr (y, p) ↦ ground (arith, find_committed-eq committed healthy name k, staged.1 y p)
  ]

module _ {K R F : Type 0} ⦃e : Comparable K⦄ (name : String) (k : K) (t : Transaction K R F) where
  -- In an active, valid transaction over a database that answers without errors, `FindByID` returns the record that the other operations see, unless
  -- the key is staged as deleted and as inserted again; and it changes nothing that is seen.
  pub find_by_id-view :
      IsHealthy t.committed
      → IsValid t
      → t.active ≡ true
      → (get (changes_of t.change_set name).inserts k ≡ none)
        ⊎ (get (changes_of t.change_set name).deletes k ≡ none)
        ⊎ ((changes_of t.change_set name).cleared ≡ true)
      → ((find_by_id name k t).0 ≡ ok (view t name k))
        × ((n : String) (j : K) → view (find_by_id name k t).1 n j ≡ view t n j)
  find_by_id-view healthy valid active apart =
      subst (λ m. (m.0 ≡ ok (view t name k)) × ((n : String) (j : K) → view m.1 n j ≡ view t n j))
        (sym (find_by_id-eq active))
        (
          ap (λ c. find_in t.committed name c k) (get_table_changes-changes t.change_set name)
              ∙ find_in-eq t.committed healthy name (changes_of t.change_set name) k (valid name k)
                  apart,
          λ n j. rw (changes_of-get_table_changes t.change_set name n),
        )
    where
      find_by_id-eq :
          t.active ≡ true
          → find_by_id name k t
            ≡ (find_in t.committed name (get_table_changes t.change_set name).0 k, touched t name)
      find_by_id-eq active = unfold find_by_id in ground arith
