-- ===== src/Transaction/KeyedChanges.antt =====
-- The staged records of a transaction: each stands once, under its own primary key; and the changes
-- that keep this.
use masterkeeper.Base.{
  String, Option, none, some, ◌≡◌, sym, ◌∙◌, inl, inr, Comparable, ◌==◌, arith, All, Option-cases,
  Bool-cases, string_eq,
}
use mathlib.Core.Path.{subst}
use masterkeeper.Base.Dict.{
  Dict, get, put, contains, IsDistinct, put-IsDistinct, remove-IsDistinct, put-All, remove-All,
}
use masterkeeper.Transaction.State.{
  TableChangeSet, IndexChangeSet, Transaction, get_table_changes, changes_of, new_table_change_set,
}
use masterkeeper.Transaction.Table.{Fields, staged_update, staged_delete}
use masterkeeper.Transaction.View.{changes_of-store, changes_of-get_table_changes}
use masterkeeper.Transaction.Refinement.{touched, stored}

-- Every entry stands under the primary key of its record.
abbrev pub AllKeyed : {K R : Type 0} → (R → Option K) → Dict K R → Type 0
AllKeyed primary_key = All (λ entry. primary_key entry.1 ≡ some entry.0)

module _ {K R F : Type 0} ⦃e : Comparable K⦄ (fields : Fields K R F) where
  pub record IsKeyed (c : TableChangeSet K R) : Type 0 where
    pub inserts_keyed : AllKeyed fields.primary_key c.inserts
    pub updates_keyed : AllKeyed fields.primary_key c.updates
    pub inserts_distinct : IsDistinct c.inserts
    pub updates_distinct : IsDistinct c.updates

  -- No table stands twice, and the change set of each is as above.
  pub record HasKeys (t : Transaction K R F) : Type 0 where
    pub tables_distinct : IsDistinct t.change_set.table_changes
    pub keyed : (name : String) → IsKeyed (changes_of t.change_set name)

  touched-missing :
      (t : Transaction K R F) (name : String)
      → get t.change_set.table_changes name ≡ none
      → (touched t name).change_set.table_changes
        ≡ put t.change_set.table_changes name new_table_change_set
  unfolding get_table_changes
  touched-missing t name h = ground (arith, h)

  touched-there :
      (t : Transaction K R F) (name : String) (c : TableChangeSet K R)
      → get t.change_set.table_changes name ≡ some c
      → (touched t name).change_set.table_changes ≡ t.change_set.table_changes
  unfolding get_table_changes
  touched-there t name c h = ground (arith, h)

  pub HasKeys-touched :
      (t : Transaction K R F) (name : String) → HasKeys t → HasKeys (touched t name)
  HasKeys-touched t name h = record {
    tables_distinct = elim (Option-cases (get t.change_set.table_changes name)) [
      | inl missing ↦
          subst IsDistinct (sym (touched-missing t name missing))
            (put-IsDistinct t.change_set.table_changes name new_table_change_set h.tables_distinct)
      | inr (c, there) ↦ subst IsDistinct (sym (touched-there t name c there)) h.tables_distinct
    ];
    keyed = λ n. subst IsKeyed (sym (changes_of-get_table_changes t.change_set name n)) (h.keyed n);
  }

  pub HasKeys-stored :
      (t : Transaction K R F) (name : String) (c : TableChangeSet K R) (i : IndexChangeSet K F)
      → HasKeys t
      → IsKeyed c
      → HasKeys (stored t name c i)
  HasKeys-stored t name c i h k = record {
    tables_distinct = put-IsDistinct _ name c (HasKeys-touched t name h).tables_distinct;
    keyed = λ n. elim (Bool-cases (name == n)) [
      | inl same ↦
          subst IsKeyed
            (sym (changes_of-store (get_table_changes t.change_set name).1 name c n ∙ rw same)) k
      | inr other ↦
          subst IsKeyed
            (sym (changes_of-store (get_table_changes t.change_set name).1 name c n ∙ rw other))
            ((HasKeys-touched t name h).keyed n)
    ];
  }

  pub IsKeyed-insert :
      (c : TableChangeSet K R) (k : K) (r : R)
      → fields.primary_key r ≡ some k
      → IsKeyed c
      → IsKeyed (record c { inserts = put c.inserts k r })
  IsKeyed-insert c k r key h = record {
    inserts_keyed = put-All _ c.inserts k r h.inserts_keyed key;
    updates_keyed = h.updates_keyed;
    inserts_distinct = put-IsDistinct c.inserts k r h.inserts_distinct;
    updates_distinct = h.updates_distinct;
  }

  pub IsKeyed-update :
      (c : TableChangeSet K R) (k : K) (r : R)
      → fields.primary_key r ≡ some k
      → IsKeyed c
      → IsKeyed (staged_update c k r)
  unfolding staged_update
  IsKeyed-update c k r key h = elim (Bool-cases (contains c.inserts k)) [
    | inl there ↦ rw there (IsKeyed-insert c k r key h)
    | inr other ↦ rw other (record {
      inserts_keyed = h.inserts_keyed;
      updates_keyed = put-All _ c.updates k r h.updates_keyed key;
      inserts_distinct = h.inserts_distinct;
      updates_distinct = put-IsDistinct c.updates k r h.updates_distinct;
    })
  ]

  pub IsKeyed-delete : (c : TableChangeSet K R) (k : K) → IsKeyed c → IsKeyed (staged_delete c k)
  unfolding staged_delete
  IsKeyed-delete c k h = elim (Bool-cases (contains c.inserts k)) [
    | inl there ↦ rw there (record {
      inserts_keyed = remove-All _ c.inserts k h.inserts_keyed;
      updates_keyed = h.updates_keyed;
      inserts_distinct = remove-IsDistinct c.inserts k h.inserts_distinct;
      updates_distinct = h.updates_distinct;
    })
    | inr other ↦ rw other (record {
      inserts_keyed = h.inserts_keyed;
      updates_keyed = remove-All _ c.updates k h.updates_keyed;
      inserts_distinct = h.inserts_distinct;
      updates_distinct = remove-IsDistinct c.updates k h.updates_distinct;
    })
  ]
