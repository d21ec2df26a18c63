-- ===== src/Commit/OldEntry.antt =====
-- The entry of one value in a unique index, as the functions that enter and delete a record leave it.
use masterkeeper.Base.{
  ℕ, String, true, false, none, some, List, [], ◌∷◌, ◌&&◌, ◌≡◌, ◌≢◌, sym, ap, ◌∙◌, Comparable, ◌==◌,
  Bool-cases, inl, inr, string_eq, bytes_eq,
}
use mathlib.Core.Path.{subst}
use masterkeeper.Base.Dict.{equals_refl}
use masterkeeper.Base.Result.{bind-ok, ok, ok_inj}
use masterkeeper.Storage.{RecordPointer}
use masterkeeper.Transaction.State.{IndexMetadata}
use masterkeeper.Commit.Indexes.{Indexes, IsIndexes}
use masterkeeper.Commit.Shadow.{
  Schema, of_tree, of_key, entry_key, insert_entry, delete_entry, delete_old, insert_entries,
  delete_entries, shadow_insert, shadow_delete,
}
use masterkeeper.Commit.Entries.{of_tree-ok, of_key-ok, shadow_insert-keyed}

module _ {V R T : Type 0} ⦃e : Comparable V⦄ (schema : Schema V R) (x : Indexes T)
    (laws : IsIndexes x) (name : String) (m : IndexMetadata) (unique : m.unique ≡ true)
    (secondary : m.index_name ≢ "primary")
    (one : (r : R) → schema.extract_index_metadata_list name r ≡ m ∷ []) (gen : ℕ) where
  unique_key :
      (v k : V) → entry_key schema x m v k ≡ schema.serialize_key (schema.canonicalize_key v)
  unique_key v k = rw unique

  delete_entry-find :
      (v k : V) (t u : T) (b : List ℕ)
      → schema.serialize_key (schema.canonicalize_key v) ≡ ok b
      → delete_entry schema x m (some v) k gen t ≡ ok u
      → x.find u m.index_name b ≡ ok none
  unfolding delete_entry
  delete_entry-find v k t u b at_b eq =
      let (c, c_eq, e1) = bind-ok (of_key (entry_key schema x m v k)) _ u eq in
      let same = ok_inj (sym (of_key-ok _ c c_eq) ∙ unique_key v k ∙ at_b) in
      laws.find-delete t u m.index_name m.index_name c b gen (of_tree-ok _ u e1)
      ∙ rw (equals_refl m.index_name, (bytes_eq.equals_iff c b).1 same)

  insert_entry-find :
      (v k : V) (p : RecordPointer) (t u : T) (b : List ℕ)
      → schema.serialize_key (schema.canonicalize_key v) ≢ ok b
      → insert_entry schema x m (some v) k p gen t ≡ ok u
      → x.find u m.index_name b ≡ x.find t m.index_name b
  unfolding insert_entry
  insert_entry-find v k p t u b differ eq =
      let (c, c_eq, e1) = bind-ok (of_key (entry_key schema x m v k)) _ u eq in
      let other : c ≢ b = λ same. differ (sym (unique_key v k) ∙ of_key-ok _ c c_eq ∙ ap ok same) in
      laws.find-insert t u m.index_name m.index_name c b p gen (of_tree-ok _ u e1)
      ∙ rw (equals_refl m.index_name, apart c b other)
    where
      apart : (c b : List ℕ) → c ≢ b → (c == b) ≡ false
      apart c b h = elim (Bool-cases (c == b)) [
        | inl same ↦ absurd (h ((bytes_eq.equals_iff c b).0 same))
        | inr other ↦ other
      ]

  primary_other : (c b : List ℕ) → (("primary" == m.index_name) && (c == b)) ≡ false
  primary_other c b = elim (Bool-cases ("primary" == m.index_name)) [
    | inl same ↦ absurd (secondary (sym ((string_eq.equals_iff "primary" m.index_name).0 same)))
    | inr other ↦ rw other
  ]

  -- The entry of the old value is gone, whatever record it belonged to.
  pub shadow_delete-entry :
      (k v : V) (old : R) (t u : T) (b : List ℕ)
      → schema.field_value old m.field_name ≡ some v
      → schema.serialize_key (schema.canonicalize_key v) ≡ ok b
      → shadow_delete schema x name k (some old) gen t ≡ ok u
      → x.find u m.index_name b ≡ ok none
  unfolding shadow_delete delete_old delete_entries
  shadow_delete-entry k v old t u b field at_b eq =
      let (c, c_eq, e1) = bind-ok (of_key (schema.serialize_key k)) _ u eq in
      let (w, w_eq, e2) = bind-ok (of_tree (x.delete t "primary" c gen)) _ u e1 in last_entry w e2
    where
      last_entry :
          (w : T)
          → delete_entries schema x (schema.extract_index_metadata_list name old) old k gen w ≡ ok u
          → x.find u m.index_name b ≡ ok none
      last_entry w eq =
          let (y, first, rest) =
            bind-ok (delete_entry schema x m (schema.field_value old m.field_name) k gen w) _ u
              (ap (λ ms. delete_entries schema x ms old k gen w) (sym (one old)) ∙ eq) in
          subst (λ q. x.find q m.index_name b ≡ ok none) (ok_inj rest)
            (delete_entry-find v k w y b at_b
              (ap (λ o. delete_entry schema x m o k gen w) (sym field) ∙ first))

  -- Entering a record with another value leaves the entries of this one alone.
  pub shadow_insert-entry :
      (k w : V) (r : R) (p : RecordPointer) (t u : T) (b : List ℕ)
      → schema.primary_key r ≡ some k
      → schema.field_value r m.field_name ≡ some w
      → schema.serialize_key (schema.canonicalize_key w) ≢ ok b
      → shadow_insert schema x name r p gen t ≡ ok u
      → x.find u m.index_name b ≡ x.find t m.index_name b
  unfolding shadow_insert insert_entries
  shadow_insert-entry k w r p t u b key field differ eq =
      let (c, c_eq, e1) =
        bind-ok (of_key (schema.serialize_key k)) _ u
          (sym (shadow_insert-keyed schema x laws name r k p gen t key) ∙ eq) in
      let (a, a_eq, e2) = bind-ok (of_tree (x.insert t "primary" c p gen)) _ u e1 in
      last_entry a e2
      ∙ laws.find-insert t a "primary" m.index_name c b p gen (of_tree-ok _ a a_eq)
      ∙ rw (primary_other c b)
    where
      last_entry :
          (a : T)
          → insert_entries schema x (schema.extract_index_metadata_list name r) r k p gen a ≡ ok u
          → x.find u m.index_name b ≡ x.find a m.index_name b
      last_entry a eq =
          let (y, first, rest) =
            bind-ok (insert_entry schema x m (schema.field_value r m.field_name) k p gen a) _ u
              (ap (λ ms. insert_entries schema x ms r k p gen a) (sym (one r)) ∙ eq) in
          subst (λ q. x.find q m.index_name b ≡ x.find a m.index_name b) (ok_inj rest)
            (insert_entry-find w k p a y b differ
              (ap (λ o. insert_entry schema x m o k p gen a) (sym field) ∙ first))
