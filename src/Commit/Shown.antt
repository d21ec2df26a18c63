-- ===== src/Commit/Shown.antt =====
-- What the primary index shows of a key against what a transaction reads of the database.
use masterkeeper.Base.{
  ℕ, String, Option, none, some, List, ◌≡◌, ◌⊎◌, refl, sym, Comparable, arith, string_eq, inl, inr,
}
use mathlib.Core.Path.{subst}
use masterkeeper.Base.Dict.{get}
use masterkeeper.Base.Result.{Result, ok, err}
use masterkeeper.Storage.{RecordPointer}
use masterkeeper.Index.Key.{Error as KeyError}
use masterkeeper.Transaction.State.{TableState, absent, at}
use masterkeeper.Transaction.View.{IsHealthy, committed_view}
use masterkeeper.Commit.Indexes.{Indexes}
use masterkeeper.Commit.Shadow.{Schema}
use masterkeeper.Commit.Apply.{Database, tree_of, committed_of}
use masterkeeper.Commit.Primary.{Shows}

module _ {V R T : Type 0} ⦃e : Comparable V⦄ (schema : Schema V R) (x : Indexes T) where
  module _ (read : String → RecordPointer → Result ℕ R) (name : String) (state : TableState)
      (gen : ℕ) (j : V) (c : List ℕ) (at_j : schema.serialize_key j ≡ ok c) where
    pub shown_view :
        (d : Database T) (o : Option R)
        → get d.tables name ≡ some state
        → Shows schema x (read name) name gen c (tree_of x d.trees name) o
        → committed_view (committed_of schema x read d) name j ≡ o
    unfolding committed_view committed_of
    shown_view d none known h = ground (arith, known, at_j, h)
    shown_view d (some r) known (p, f, reads) = ground (arith, known, at_j, f, reads)

    primary_absent :
        (d : Database T)
        → (committed_of schema x read d).find name j ≡ absent
        → x.find (tree_of x d.trees name) "primary" c ≡ ok none
    unfolding committed_of
    primary_absent d h = ground (arith, at_j, h)

    primary_at :
        (d : Database T) (p : RecordPointer)
        → (committed_of schema x read d).find name j ≡ at p
        → x.find (tree_of x d.trees name) "primary" c ≡ ok (some p)
    unfolding committed_of
    primary_at d p h = ground (arith, at_j, h)

    storage_reads :
        (d : Database T) (p : RecordPointer) (r : R)
        → (committed_of schema x read d).read_from_storage name p ≡ ok r
        → read name p ≡ ok r
    unfolding committed_of
    storage_reads d p r h = ground (arith, h)

    pub view_shown :
        (d : Database T)
        → get d.tables name ≡ some state
        → IsHealthy (committed_of schema x read d)
        → Shows schema x
            (read name)
            name
            gen
            c
            (tree_of x d.trees name)
            (committed_view (committed_of schema x read d) name j)
    view_shown d known healthy = elim (healthy name j) [
      | inl gone ↦
          subst (Shows schema x (read name) name gen c (tree_of x d.trees name))
            (sym (shown_view d none known (primary_absent d gone))) (primary_absent d gone)
      | inr (p, r, found, reads) ↦
          let shows : Shows schema x (read name) name gen c (tree_of x d.trees name) (some r) =
            (p, primary_at d p found, storage_reads d p r reads) in
          subst (Shows schema x (read name) name gen c (tree_of x d.trees name))
            (sym (shown_view d (some r) known shows)) shows
    ]

  serialize-fails :
      (read : String → RecordPointer → Result ℕ R) (d : Database T) (name : String) (j : V)
      (f : KeyError)
      → schema.serialize_key j ≡ err f
      → ((committed_of schema x read d).find name j ≡ absent)
        ⊎ ((p : RecordPointer) × ((committed_of schema x read d).find name j ≡ at p))
      → ⊥
  unfolding committed_of
  serialize-fails read d name j f h (inl gone) = ground (arith, h, gone)
  serialize-fails read d name j f h (inr (p, found)) = ground (arith, h, found)

  -- In a healthy database every key serializes.
  pub serialized :
      (read : String → RecordPointer → Result ℕ R) (d : Database T) (name : String) (j : V)
      → IsHealthy (committed_of schema x read d)
      → (c : List ℕ) × (schema.serialize_key j ≡ ok c)
  serialized read d name j healthy = by_key (schema.serialize_key j) refl
    where
      fails : (f : KeyError) → schema.serialize_key j ≡ err f → ⊥
      fails f h = elim (healthy name j) [
        | inl gone ↦ serialize-fails read d name j f h (inl gone)
        | inr (p, r, found, reads) ↦ serialize-fails read d name j f h (inr (p, found))
      ]

      by_key :
          (m : Result KeyError (List ℕ))
          → schema.serialize_key j ≡ m
          → (c : List ℕ) × (schema.serialize_key j ≡ ok c)
      by_key (ok c) h = (c, h)
      by_key (err f) h = absurd (fails f h)
