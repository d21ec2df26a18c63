-- ===== src/Commit/Primary.antt =====
-- What the primary index of a table shows under the bytes of a key, through each change of an entry.
use masterkeeper.Base.{
  ℕ, String, Bool, true, false, Option, none, some, List, [], ◌∷◌, ◌≡◌, ◌∙◌, if◌then◌else◌,
  Comparable, ◌==◌, string_eq, bytes_eq,
}
use masterkeeper.Base.Dict.{Dict}
use masterkeeper.Base.Result.{Result, ok}
use masterkeeper.Storage.{RecordPointer}
use masterkeeper.Transaction.State.{TableChangeSet}
use masterkeeper.Commit.Indexes.{Indexes, IsIndexes}
use masterkeeper.Commit.Shadow.{Schema, shadow_insert, shadow_delete, shadow_commit}
use masterkeeper.Commit.Entries.{of_tree-ok, IsSchema, shadow_insert-primary, shadow_delete-primary}

module _ {V R : Type 0} (schema : Schema V R) (j : V) (c : List ℕ) where
  -- Of the keys of these entries, only the key itself serializes to its bytes.
  abbrev pub AreApart : {B : Type 0} → Dict V B → Type 0
  AreApart [] = Unit
  AreApart (entry ∷ es) = (schema.serialize_key entry.0 ≡ ok c → entry.0 ≡ j) × AreApart es

  pub record AreApartChanges (changes : TableChangeSet V R) : Type 0 where
    pub deletes : AreApart changes.deletes
    pub inserts : AreApart changes.inserts
    pub updates : AreApart changes.updates

module _ {V R T : Type 0} ⦃e : Comparable V⦄ (schema : Schema V R) (x : Indexes T)
    (read : RecordPointer → Result ℕ R) (name : String) (gen : ℕ) where
  module _ (c : List ℕ) where
    -- What the primary index shows under the bytes of a key.
    abbrev pub Shows : T → Option R → Type 0
    Shows t none = x.find t "primary" c ≡ ok none
    Shows t (some r) = (p : RecordPointer) × (x.find t "primary" c ≡ ok (some p)) × (read p ≡ ok r)

    pub Shows-if :
        (t : T) (b : Bool) (o : Option R) (p : RecordPointer) (r : R) (u : T)
        → x.find u "primary" c ≡ (if b then ok (some p) else x.find t "primary" c)
        → read p ≡ ok r
        → Shows t o
        → Shows u (if b then some r else o)
    Shows-if t true o p r u f reads h = (p, f, reads)
    Shows-if t false none p r u f reads h = f ∙ h
    Shows-if t false (some y) p r u f reads (q, g, w) = (q, f ∙ g, w)

    pub Shows-unless :
        (t : T) (b : Bool) (o : Option R) (u : T)
        → x.find u "primary" c ≡ (if b then ok none else x.find t "primary" c)
        → Shows t o
        → Shows u (if b then none else o)
    Shows-unless t true o u f h = f
    Shows-unless t false none u f h = f ∙ h
    Shows-unless t false (some y) u f (q, g, w) = (q, f ∙ g, w)

    module _ (laws : IsIndexes x) (proper : IsSchema schema) where
      -- Whatever keys serialize alike, the index shows some record or none.
      pub shadow_insert-shown :
          (r : R) (k : V) (p : RecordPointer) (t u : T) (o : Option R)
          → schema.primary_key r ≡ some k
          → read p ≡ ok r
          → shadow_insert schema x name r p gen t ≡ ok u
          → Shows t o
          → (q : Option R) × Shows u q
      shadow_insert-shown r k p t u o key reads done h =
          let (b, s, f) =
            shadow_insert-primary schema x laws proper name r k p gen t u c key done in
          (_, Shows-if t (b == c) o p r u f reads h)

      pub shadow_delete-shown :
          (k : V) (old : Option R) (t u : T) (o : Option R)
          → shadow_delete schema x name k old gen t ≡ ok u
          → Shows t o
          → (q : Option R) × Shows u q
      shadow_delete-shown k old t u o done h =
          let (b, s, f) = shadow_delete-primary schema x laws proper name k old gen t u c done in
          (_, Shows-unless t (b == c) o u f h)

      pub shadow_commit-Shows :
          (t u : T) (o : Option R) → shadow_commit schema x gen t ≡ ok u → Shows t o → Shows u o
      unfolding shadow_commit
      shadow_commit-Shows t u none done h =
          laws.find-commit t u "primary" c gen (of_tree-ok _ u done) ∙ h
      shadow_commit-Shows t u (some r) done (p, f, reads) =
          (p, laws.find-commit t u "primary" c gen (of_tree-ok _ u done) ∙ f, reads)
