-- ===== src/Commit/Entries.antt =====
-- The entry of a key in the primary index, through the operations on an index tree.
use masterkeeper.Base.{
  ℕ, String, false, ◌&&◌, Option, none, some, List, [], ◌∷◌, ◌≡◌, ◌≢◌, sym, ap, ◌∙◌, if◌then◌else◌,
  Comparable, ◌==◌, arith, All, string_eq, bytes_eq, inl, inr, Bool-cases,
}
use masterkeeper.Base.Dict.{Dict}
use masterkeeper.Base.Result.{bind-ok, Result, ok, err, ◌>>=◌}
use masterkeeper.Storage.{RecordPointer}
use masterkeeper.Index.Key.{Error as KeyError}
use masterkeeper.Transaction.State.{IndexMetadata}
use masterkeeper.Commit.Indexes.{Indexes, IsIndexes}
use masterkeeper.Commit.Apply.{apply_updates}
use masterkeeper.Commit.Shadow.{
  Schema, Failure, nil_primary_key, entry_key, insert_entry, delete_entry, delete_old,
  insert_entries, delete_entries, shadow_insert, shadow_delete, read_committed_record, of_tree,
  of_key,
}

pub of_tree-ok {ℓ} : {A : Type ℓ} (m : Result ℕ A) (a : A) → of_tree m ≡ ok a → m ≡ ok a
of_tree-ok (ok b) a e = cc
of_tree-ok (err x) a e = absurd (cc)

pub of_key-ok {ℓ} : {A : Type ℓ} (m : Result KeyError A) (a : A) → of_key m ≡ ok a → m ≡ ok a
of_key-ok (ok b) a e = cc
of_key-ok (err x) a e = absurd (cc)

-- What is asked of the records: no secondary index has the name of the primary one.
pub record IsSchema {V R : Type 0} (schema : Schema V R) : Type 0 where
  pub secondary :
      (name : String) (r : R)
      → All (λ m. m.index_name ≢ "primary") (schema.extract_index_metadata_list name r)

module _ {V R T : Type 0} ⦃e : Comparable V⦄ (schema : Schema V R) (x : Indexes T)
    (laws : IsIndexes x) where
  -- An entry of another index.
  other_index : (n : String) (b c : List ℕ) → n ≢ "primary" → ((n == "primary") && (b == c)) ≡ false
  other_index n b c h = elim (Bool-cases (n == "primary")) [
    | inl same ↦ absurd (h ((string_eq.equals_iff n "primary").0 same))
    | inr other ↦ rw other
  ]

  -- The entries of the primary index are not touched by the secondary ones.
  insert_entry-primary :
      (m : IndexMetadata) (o : Option V) (k : V) (p : RecordPointer) (gen : ℕ) (t u : T)
      (b : List ℕ)
      → m.index_name ≢ "primary"
      → insert_entry schema x m o k p gen t ≡ ok u
      → x.find u "primary" b ≡ x.find t "primary" b
  unfolding insert_entry
  insert_entry-primary m none k p gen t u b h e = ground arith
  insert_entry-primary m (some v) k p gen t u b h e =
      let (key, key_eq, e1) = bind-ok (of_key (entry_key schema x m v k)) _ u e in
      laws.find-insert t u m.index_name "primary" key b p gen (of_tree-ok _ u e1)
      ∙ rw (other_index m.index_name key b h)

  insert_entries-primary :
      (ms : List IndexMetadata) (r : R) (k : V) (p : RecordPointer) (gen : ℕ) (t u : T) (b : List ℕ)
      → All (λ m. m.index_name ≢ "primary") ms
      → insert_entries schema x ms r k p gen t ≡ ok u
      → x.find u "primary" b ≡ x.find t "primary" b
  unfolding insert_entries
  insert_entries-primary [] r k p gen t u b h e = ground arith
  insert_entries-primary (m ∷ ms) r k p gen t u b h e =
      let (w, first, rest) =
        bind-ok (insert_entry schema x m (schema.field_value r m.field_name) k p gen t) _ u e in
      insert_entries-primary ms r k p gen w u b h.1 rest
      ∙ insert_entry-primary m (schema.field_value r m.field_name) k p gen t w b h.0 first

  delete_entry-primary :
      (m : IndexMetadata) (o : Option V) (k : V) (gen : ℕ) (t u : T) (b : List ℕ)
      → m.index_name ≢ "primary"
      → delete_entry schema x m o k gen t ≡ ok u
      → x.find u "primary" b ≡ x.find t "primary" b
  unfolding delete_entry
  delete_entry-primary m none k gen t u b h e = ground arith
  delete_entry-primary m (some v) k gen t u b h e =
      let (key, key_eq, e1) = bind-ok (of_key (entry_key schema x m v k)) _ u e in
      laws.find-delete t u m.index_name "primary" key b gen (of_tree-ok _ u e1)
      ∙ rw (other_index m.index_name key b h)

  delete_entries-primary :
      (ms : List IndexMetadata) (r : R) (k : V) (gen : ℕ) (t u : T) (b : List ℕ)
      → All (λ m. m.index_name ≢ "primary") ms
      → delete_entries schema x ms r k gen t ≡ ok u
      → x.find u "primary" b ≡ x.find t "primary" b
  unfolding delete_entries
  delete_entries-primary [] r k gen t u b h e = ground arith
  delete_entries-primary (m ∷ ms) r k gen t u b h e =
      let (w, first, rest) =
        bind-ok (delete_entry schema x m (schema.field_value r m.field_name) k gen t) _ u e in
      delete_entries-primary ms r k gen w u b h.1 rest
      ∙ delete_entry-primary m (schema.field_value r m.field_name) k gen t w b h.0 first

  pub shadow_insert-keyed :
      (name : String) (r : R) (k : V) (p : RecordPointer) (gen : ℕ) (t : T)
      → schema.primary_key r ≡ some k
      → shadow_insert schema x name r p gen t ≡ (
          of_key (schema.serialize_key k) >>= λ b. of_tree (x.insert t "primary" b p gen) >>= λ u.
          insert_entries schema x (schema.extract_index_metadata_list name r) r k p gen u)
  unfolding shadow_insert
  shadow_insert-keyed name r k p gen t key =
      ap
        (λ o. elim o as (λ o. Result Failure T) [
          | none ↦ err nil_primary_key
          | some k ↦ of_key (schema.serialize_key k) >>= λ b.
              of_tree (x.insert t "primary" b p gen) >>= λ u.
              insert_entries schema x (schema.extract_index_metadata_list name r) r k p gen u
        ])
        key

  module _ (proper : IsSchema schema) (name : String) where
    -- What the primary index holds after a record is entered.
    pub shadow_insert-primary :
        (r : R) (k : V) (p : RecordPointer) (gen : ℕ) (t u : T) (c : List ℕ)
        → schema.primary_key r ≡ some k
        → shadow_insert schema x name r p gen t ≡ ok u
        → (b : List ℕ) × (schema.serialize_key k ≡ ok b)
          × (x.find u "primary" c ≡ (if b == c then ok (some p) else x.find t "primary" c))
    unfolding shadow_insert
    shadow_insert-primary r k p gen t u c key e =
        let (b, b_eq, e1) =
          bind-ok (of_key (schema.serialize_key k)) _ u
            (sym (shadow_insert-keyed name r k p gen t key) ∙ e) in
        let (w, w_eq, e2) = bind-ok (of_tree (x.insert t "primary" b p gen)) _ u e1 in
        (
          b,
          of_key-ok _ b b_eq,
          insert_entries-primary _ r k p gen w u c (proper.secondary name r) e2
              ∙ laws.find-insert t w "primary" "primary" b c p gen (of_tree-ok _ w w_eq),
        )

    delete_old-primary :
        (k : V) (old : Option R) (gen : ℕ) (t u : T) (c : List ℕ)
        → delete_old schema x name k old gen t ≡ ok u
        → x.find u "primary" c ≡ x.find t "primary" c
    unfolding delete_old
    delete_old-primary k none gen t u c e = ground arith
    delete_old-primary k (some r) gen t u c e =
        delete_entries-primary _ r k gen t u c (proper.secondary name r) e

    pub shadow_delete-primary :
        (k : V) (old : Option R) (gen : ℕ) (t u : T) (c : List ℕ)
        → shadow_delete schema x name k old gen t ≡ ok u
        → (b : List ℕ) × (schema.serialize_key k ≡ ok b)
          × (x.find u "primary" c ≡ (if b == c then ok none else x.find t "primary" c))
    unfolding shadow_delete
    shadow_delete-primary k old gen t u c e =
        let (b, b_eq, e1) = bind-ok (of_key (schema.serialize_key k)) _ u e in
        let (w, w_eq, e2) = bind-ok (of_tree (x.delete t "primary" b gen)) _ u e1 in
        (
          b,
          of_key-ok _ b b_eq,
          delete_old-primary k old gen w u c e2
              ∙ laws.find-delete t w "primary" "primary" b c gen (of_tree-ok _ w w_eq),
        )

  pub apply_updates-keyed :
      (read : RecordPointer → Result ℕ R) (name : String) (gen : ℕ) (j k : V) (r : R)
      (rs : Dict V R) (p : RecordPointer) (ps : List RecordPointer) (t : T)
      → schema.primary_key r ≡ some k
      → apply_updates schema x read name gen ((j, r) ∷ rs) (p ∷ ps) t ≡ (
          read_committed_record schema x read k t >>= λ old.
          shadow_delete schema x name k old gen t >>= λ w.
          shadow_insert schema x name r p gen w >>= λ y.
          apply_updates schema x read name gen rs ps y)
  unfolding apply_updates
  apply_updates-keyed read name gen j k r rs p ps t key =
      ap
        (λ q. elim q as (λ q. Result Failure T) [
          | none ↦ err nil_primary_key
          | some k ↦ read_committed_record schema x read k t >>= λ old.
              shadow_delete schema x name k old gen t >>= λ w.
              shadow_insert schema x name r p gen w >>= λ y.
              apply_updates schema x read name gen rs ps y
        ])
        key
