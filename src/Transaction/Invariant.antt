-- ===== src/Transaction/Invariant.antt =====
-- The invariant of the staged changes of a table, and that each kind of change keeps it.
use masterkeeper.Base.{
  String, true, false, [], none, some, ◌≡◌, inl, inr, Comparable, arith, Option-cases,
}
use masterkeeper.Base.Dict.{get, put, get-put, get-remove}
use masterkeeper.Transaction.State.{Committed, TableChangeSet, new_table_change_set}
use masterkeeper.Transaction.Table.{staged_update, staged_delete}
use masterkeeper.Transaction.View.{base_view, staged_view}

module _ {K R : Type 0} ⦃e : Comparable K⦄ (committed : Committed K R) (name : String) where
  -- At one key: a staged insert hides nothing (the key is not staged as an update too, and no
  -- committed record shows through), and a staged update is of a key that is neither cleared nor
  -- deleted.
  abbrev pub IsStagedAt : TableChangeSet K R → K → Type 0
  IsStagedAt c k =
      ((r : R)
        → get c.inserts k ≡ some r
        → (get c.updates k ≡ none) × (base_view committed name c k ≡ none))
      × ((r : R) → get c.updates k ≡ some r → (c.cleared ≡ false) × (get c.deletes k ≡ none))

  abbrev pub IsStaged : TableChangeSet K R → Type 0
  IsStaged c = (k : K) → IsStagedAt c k

  pub IsStaged-empty : IsStaged new_table_change_set
  unfolding get
  IsStaged-empty k = (λ r h. cc, λ r h. cc)

  pub IsStaged-cleared :
      IsStaged (record { cleared = true; inserts = []; updates = []; deletes = [] })
  unfolding get
  IsStaged-cleared k = (λ r h. cc, λ r h. cc)

  pub IsStaged-insert :
      (c : TableChangeSet K R) (k : K) (r : R)
      → IsStaged c
      → staged_view committed name c k ≡ none
      → IsStaged (record c { inserts = put c.inserts k r })
  unfolding staged_view base_view
  IsStaged-insert c k r v h j = (
    λ x p. ground (arith, e.equals_iff k j, get-put c.inserts k r j, (v j).0 x),
    λ x p. (v j).1 x p,
  )

  -- A key that is visible and not a staged insert is neither cleared nor deleted.
  pub visible_open :
      (c : TableChangeSet K R) (k : K) (old : R)
      → IsStagedAt c k
      → get c.inserts k ≡ none
      → staged_view committed name c k ≡ some old
      → (c.cleared ≡ false) × (get c.deletes k ≡ none)
  unfolding staged_view base_view
  visible_open c k old v fresh h = elim (Option-cases (get c.updates k)) [
    | inl p ↦ ground arith
    | inr (y, p) ↦ v.1 y p
  ]

  pub IsStaged-update :
      (c : TableChangeSet K R) (k : K) (r old : R)
      → IsStaged c
      → staged_view committed name c k ≡ some old
      → IsStaged (staged_update c k r)
  unfolding staged_update staged_view base_view
  IsStaged-update c k r old v h j = elim (Option-cases (get c.inserts k)) [
    | inl fresh ↦ (
      λ x p. ground (arith, fresh, e.equals_iff k j, get-put c.updates k r j, (v j).0 x),
      λ x p. ground (
        arith,
        fresh,
        e.equals_iff k j,
        get-put c.updates k r j,
        (v j).1 x,
        visible_open c k old (v k) fresh h,
      ),
    )
    | inr (y, present) ↦ (
      λ x p.
          ground (arith, present, e.equals_iff k j, get-put c.inserts k r j, (v j).0 x, (v j).0 y),
      λ x p. ground (arith, present, (v j).1 x),
    )
  ]

  pub IsStaged-delete : (c : TableChangeSet K R) (k : K) → IsStaged c → IsStaged (staged_delete c k)
  unfolding staged_delete base_view
  IsStaged-delete c k v j = elim (Option-cases (get c.inserts k)) [
    | inl fresh ↦ (
      λ x p. ground (
        arith,
        fresh,
        e.equals_iff k j,
        get-remove c.updates k j,
        get-put c.deletes k tt j,
        (v j).0 x,
      ),
      λ x p. ground (
        arith,
        fresh,
        e.equals_iff k j,
        get-remove c.updates k j,
        get-put c.deletes k tt j,
        (v j).1 x,
      ),
    )
    | inr (y, present) ↦ (
      λ x p. ground (arith, present, e.equals_iff k j, get-remove c.inserts k j, (v j).0 x),
      λ x p. ground (arith, present, (v j).1 x),
    )
  ]
