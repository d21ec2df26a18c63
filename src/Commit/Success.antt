-- ===== src/Commit/Success.antt =====
-- `Commit` on indexes that report no error: no other part of it can fail.
use masterkeeper.Base.{
  ℕ, String, Option, none, some, List, [], ◌∷◌, ◌++◌, ◌≡◌, refl, ap, ◌∙◌, Comparable, arith,
  Bool-cases, inl, inr, string_eq,
}
use masterkeeper.Base.Result.{bind-eq, ok}
use masterkeeper.Storage.{RecordPointer}
use masterkeeper.Index.Key.{with_length, serialize_composite_key}
use masterkeeper.Transaction.State.{IndexMetadata}
use masterkeeper.Commit.Indexes.{Indexes, IsIndexes}
use masterkeeper.Commit.Shadow.{
  Schema, of_tree, of_key, entry_key, insert_entry, delete_entry, delete_old, insert_entries,
  delete_entries, shadow_insert, shadow_delete, shadow_commit,
}
use masterkeeper.Commit.Entries.{shadow_insert-keyed}

-- No operation on the trees reports an error.
pub record IsReliable {T : Type 0} (x : Indexes T) : Type 0 where
  pub inserts :
      (t : T) (n : String) (k : List ℕ) (p : RecordPointer) (g : ℕ)
      → (u : T) × (x.insert t n k p g ≡ ok u)
  pub deletes : (t : T) (n : String) (k : List ℕ) (g : ℕ) → (u : T) × (x.delete t n k g ≡ ok u)
  pub commits : (t : T) (g : ℕ) → (u : T) × (x.commit t g ≡ ok u)

module _ {V R T : Type 0} ⦃e : Comparable V⦄ (schema : Schema V R) (x : Indexes T)
    (reliable : IsReliable x)
    (serializes : (v : V) → (b : List ℕ) × (schema.serialize_key v ≡ ok b)) where
  entry_key-ok : (m : IndexMetadata) (v k : V) → (b : List ℕ) × (entry_key schema x m v k ≡ ok b)
  unfolding serialize_composite_key
  entry_key-ok m v k = elim (Bool-cases m.unique) [
    | inl unique ↦
        let (b, eq) = serializes (schema.canonicalize_key v) in (b, ground (arith, unique, eq))
    | inr other ↦
        let (s, s_eq) = serializes (schema.canonicalize_key v) in
        let (p, p_eq) = serializes k in
        (with_length s ++ with_length p, rw other (ground (arith, s_eq, p_eq)))
  ]

  insert_entry-ok :
      (m : IndexMetadata) (o : Option V) (k : V) (p : RecordPointer) (gen : ℕ) (t : T)
      → (u : T) × (insert_entry schema x m o k p gen t ≡ ok u)
  unfolding insert_entry
  insert_entry-ok m none k p gen t = (t, refl)
  insert_entry-ok m (some v) k p gen t =
      let (b, key) = entry_key-ok m v k in
      let (u, done) = reliable.inserts t m.index_name b p gen in
      (u, bind-eq _ _ _ _ (ap of_key key) (ap of_tree done))

  delete_entry-ok :
      (m : IndexMetadata) (o : Option V) (k : V) (gen : ℕ) (t : T)
      → (u : T) × (delete_entry schema x m o k gen t ≡ ok u)
  unfolding delete_entry
  delete_entry-ok m none k gen t = (t, refl)
  delete_entry-ok m (some v) k gen t =
      let (b, key) = entry_key-ok m v k in
      let (u, done) = reliable.deletes t m.index_name b gen in
      (u, bind-eq _ _ _ _ (ap of_key key) (ap of_tree done))

  insert_entries-ok :
      (ms : List IndexMetadata) (r : R) (k : V) (p : RecordPointer) (gen : ℕ) (t : T)
      → (u : T) × (insert_entries schema x ms r k p gen t ≡ ok u)
  unfolding insert_entries
  insert_entries-ok [] r k p gen t = (t, refl)
  insert_entries-ok (m ∷ ms) r k p gen t =
      let (w, first) = insert_entry-ok m (schema.field_value r m.field_name) k p gen t in
      let (u, rest) = insert_entries-ok ms r k p gen w in (u, bind-eq _ _ _ _ first rest)

  delete_entries-ok :
      (ms : List IndexMetadata) (r : R) (k : V) (gen : ℕ) (t : T)
      → (u : T) × (delete_entries schema x ms r k gen t ≡ ok u)
  unfolding delete_entries
  delete_entries-ok [] r k gen t = (t, refl)
  delete_entries-ok (m ∷ ms) r k gen t =
      let (w, first) = delete_entry-ok m (schema.field_value r m.field_name) k gen t in
      let (u, rest) = delete_entries-ok ms r k gen w in (u, bind-eq _ _ _ _ first rest)

  delete_old-ok :
      (name : String) (k : V) (old : Option R) (gen : ℕ) (t : T)
      → (u : T) × (delete_old schema x name k old gen t ≡ ok u)
  unfolding delete_old
  delete_old-ok name k none gen t = (t, refl)
  delete_old-ok name k (some r) gen t =
      delete_entries-ok (schema.extract_index_metadata_list name r) r k gen t

  pub shadow_insert-ok :
      (laws : IsIndexes x) (name : String) (r : R) (k : V) (p : RecordPointer) (gen : ℕ) (t : T)
      → schema.primary_key r ≡ some k
      → (u : T) × (shadow_insert schema x name r p gen t ≡ ok u)
  shadow_insert-ok laws name r k p gen t key =
      let (b, serialized) = serializes k in
      let (w, entered) = reliable.inserts t "primary" b p gen in
      let (u, rest) = insert_entries-ok (schema.extract_index_metadata_list name r) r k p gen w in
      (
        u,
        shadow_insert-keyed schema x laws name r k p gen t key
            ∙ bind-eq _ _ _ _ (ap of_key serialized) (bind-eq _ _ _ _ (ap of_tree entered) rest),
      )

  pub shadow_delete-ok :
      (name : String) (k : V) (old : Option R) (gen : ℕ) (t : T)
      → (u : T) × (shadow_delete schema x name k old gen t ≡ ok u)
  unfolding shadow_delete
  shadow_delete-ok name k old gen t =
      let (b, serialized) = serializes k in
      let (w, gone) = reliable.deletes t "primary" b gen in
      let (u, rest) = delete_old-ok name k old gen w in
      (u, bind-eq _ _ _ _ (ap of_key serialized) (bind-eq _ _ _ _ (ap of_tree gone) rest))

  pub shadow_commit-ok : (gen : ℕ) (t : T) → (u : T) × (shadow_commit schema x gen t ≡ ok u)
  unfolding shadow_commit
  shadow_commit-ok gen t = let (u, done) = reliable.commits t gen in (u, ap of_tree done)
