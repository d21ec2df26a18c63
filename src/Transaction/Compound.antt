-- ===== src/Transaction/Compound.antt =====
-- `upsert` and `clear` of table.go against the map that the transaction sees.
use mathlib.Core.Path.{fun_ext, subst₂}
use masterkeeper.Base.{
  String, true, Option, none, some, ◌≡◌, refl, ap, ◌∙◌, inl, inr, Comparable, arith, Option-cases,
}
use masterkeeper.Base.{[]}
use masterkeeper.Base.Dict.{get}
use masterkeeper.Base.Result.{Result, ok}
use masterkeeper.Transaction.State.{Error, TableChangeSet, IndexChangeSet, Transaction, changes_of}
use masterkeeper.Transaction.Table.{Fields, upsert, clear, insert, update, other_tables}
use masterkeeper.Transaction.View.{
  IsHealthy, view, key_exists-eq, get_table_changes-changes, changes_of-get_table_changes,
  staged_view, base_view,
}
use masterkeeper.Transaction.Spec.{upsert_spec, clear_spec, insert_spec, update_spec}
use masterkeeper.Transaction.Invariant.{IsStaged-cleared}
use masterkeeper.Transaction.Refinement.{
  IsValid, Refines, Refines-by, touched, stored, view-stored, IsValid-stored, insert-Refines,
  update-Refines,
}

module _ {K R F : Type 0} ⦃e : Comparable K⦄ where
  module _ (t : Transaction K R F) (name : String) where
    view-touched : view (touched t name) ≡ view t
    view-touched = fun_ext λ n. fun_ext λ j. rw (changes_of-get_table_changes t.change_set name n)

    IsValid-touched : IsValid t → IsValid (touched t name)
    IsValid-touched valid n = rw (changes_of-get_table_changes t.change_set name n) (valid n)

  module _ (fields : Fields K R F) (name : String) (k : K) (r : R) (t : Transaction K R F)
      (healthy : IsHealthy t.committed) (valid : IsValid t) where
    abbrev upserted : Option R → Result (Error K) (Unit {0}) × Transaction K R F
    upserted (some old) = update fields name r (touched t name)
    upserted none = insert fields name r (touched t name)

    upsert-eq : fields.primary_key r ≡ some k → upsert fields name r t ≡ upserted (view t name k)
    unfolding upsert
    upsert-eq key = ground (
      arith,
      get_table_changes-changes t.change_set name,
      key_exists-eq t.committed healthy name (changes_of t.change_set name) k,
    )

    module _ (active : t.active ≡ true) (key : fields.primary_key r ≡ some k) where
      update-touched :
          (o : Option R)
          → view t name k ≡ o
          → Refines t (update fields name r (touched t name)) (update_spec name k (view t) o r)
      update-touched o p =
          subst₂
            (λ v w. Refines t (update fields name r (touched t name)) (update_spec name k v w r))
            (view-touched t name) (ap (λ v. v name k) (view-touched t name) ∙ p)
            (update-Refines fields name k r (touched t name) healthy (IsValid-touched t name valid)
              active key)

      insert-touched :
          (o : Option R)
          → view t name k ≡ o
          → Refines t (insert fields name r (touched t name)) (insert_spec name k (view t) o r)
      insert-touched o p =
          subst₂
            (λ v w. Refines t (insert fields name r (touched t name)) (insert_spec name k v w r))
            (view-touched t name) (ap (λ v. v name k) (view-touched t name) ∙ p)
            (insert-Refines fields name k r (touched t name) healthy (IsValid-touched t name valid)
              active key)

      -- In an active, valid transaction over a database that answers without errors, `upsert` of a
      -- record with a key succeeds, and afterwards the transaction sees the record under its key and
      -- every other key as before.
      pub upsert-Refines : Refines t (upsert fields name r t) (upsert_spec name k (view t) r)
      upsert-Refines = elim (Option-cases (view t name k)) [
        | inl fresh ↦
            Refines-by t (upsert-eq key ∙ ap upserted fresh) refl (insert-touched none fresh)
        | inr (old, present) ↦
            Refines-by t (upsert-eq key ∙ ap upserted present) refl
              (update-touched (some old) present)
      ]

  module _ (name : String) (t : Transaction K R F) where
    abbrev pub emptied_index_changes : IndexChangeSet K F
    emptied_index_changes = record {
      added = other_tables name (touched t name).change_set.index_changes.added;
      removed = other_tables name (touched t name).change_set.index_changes.removed;
    }

    abbrev pub emptied_changes : TableChangeSet K R
    emptied_changes = record { cleared = true; inserts = []; updates = []; deletes = [] }

    abbrev pub emptied : Transaction K R F
    emptied = stored t name emptied_changes emptied_index_changes

    pub clear-eq : t.active ≡ true → clear name t ≡ (ok tt, emptied)
    unfolding clear
    clear-eq active = ground arith

    -- In an active, valid transaction `clear` leaves no record visible in its table, whatever was
    -- staged or committed there, and leaves the other tables as they were.
    pub clear-Refines :
        t.active ≡ true → IsValid t → Refines t (clear name t) (clear_spec name (view t))
    unfolding staged_view base_view get
    clear-Refines active valid = Refines-by t (clear-eq active) refl (
      refl,
      λ n j. view-stored t name emptied_changes emptied_index_changes n j,
      IsValid-stored t name emptied_changes emptied_index_changes valid
          (IsStaged-cleared t.committed name),
      refl,
      refl,
    )
