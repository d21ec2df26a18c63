-- ===== src/Commit/Loops.antt =====
-- The loops of `Commit` over the changes of a table, as one key sees them.
use masterkeeper.Base.{
  ℕ, String, Bool, true, false, Option, none, some, List, [], ◌∷◌, ◌++◌, ◌≡◌, refl, sym, ap, ◌∙◌,
  if◌then◌else◌, Comparable, ◌==◌, string_eq, bytes_eq, inl, inr, Bool-cases,
}
use mathlib.Core.Path.{subst}
use masterkeeper.Base.Dict.{Dict, get, contains, IsDistinct}
use masterkeeper.Base.Result.{bind-ok, Result, ok, ok_inj}
use masterkeeper.Storage.{RecordPointer}
use masterkeeper.Transaction.State.{TableChangeSet}
use masterkeeper.Transaction.KeyedChanges.{AllKeyed}
use masterkeeper.Commit.Indexes.{Indexes, IsIndexes}
use masterkeeper.Commit.Shadow.{
  Schema, shadow_insert, shadow_delete, shadow_commit, read_committed_record,
}
use masterkeeper.Commit.Apply.{
  apply_deletes, apply_inserts, apply_updates, is_modified, commit_table,
}
use masterkeeper.Commit.Primary.{
  AreApart, AreApartChanges, Shows, Shows-if, Shows-unless, shadow_commit-Shows,
}
use masterkeeper.Commit.Entries.{
  IsSchema, shadow_insert-primary, shadow_delete-primary, apply_updates-keyed,
}

abbrev pub or_else {ℓ} : {A : Type ℓ} → Option A → Option A → Option A
or_else none o = o
or_else (some a) o = some a

module _ {V R : Type 0} where
  -- The pointers read, one by one, the records.
  abbrev pub Reads : (RecordPointer → Result ℕ R) → Dict V R → List RecordPointer → Type 0
  Reads read [] ps = Unit
  Reads read (entry ∷ rs) [] = Unit
  Reads read (entry ∷ rs) (p ∷ ps) = (read p ≡ ok entry.1) × Reads read rs ps

module _ {V R T : Type 0} ⦃e : Comparable V⦄ (schema : Schema V R) (x : Indexes T)
    (read : RecordPointer → Result ℕ R) (name : String) (gen : ℕ) where
  module _ (laws : IsIndexes x) (proper : IsSchema schema) (j : V) (c : List ℕ)
      (at : schema.serialize_key j ≡ ok c) where
    abbrev pub Index : T → Option R → Type 0
    Index = Shows schema x read name gen c

    same_bytes :
        (k : V) (b : List ℕ)
        → (schema.serialize_key k ≡ ok c → k ≡ j)
        → schema.serialize_key k ≡ ok b
        → (b == c) ≡ (k == j)
    same_bytes k b apart s = elim (Bool-cases (k == j)) [
      | inl same ↦
          (bytes_eq.equals_iff b c).1
            (ok_inj (sym s ∙ ap schema.serialize_key ((e.equals_iff k j).0 same) ∙ at))
          ∙ sym same
      | inr other ↦ elim (Bool-cases (b == c)) [
        | inl eq ↦ absurd (
            differ other
              ((e.equals_iff k j).1 (apart (s ∙ ap ok ((bytes_eq.equals_iff b c).0 eq)))))
        | inr ne ↦ ne ∙ sym other
      ]
    ]
      where
        differ : {b : Bool} → b ≡ false → b ≡ true → ⊥
        differ p q = cc

    pub shadow_insert-Shows :
        (r : R) (k : V) (p : RecordPointer) (t u : T) (o : Option R)
        → (schema.serialize_key k ≡ ok c → k ≡ j)
        → schema.primary_key r ≡ some k
        → read p ≡ ok r
        → shadow_insert schema x name r p gen t ≡ ok u
        → Index t o
        → Index u (if k == j then some r else o)
    shadow_insert-Shows r k p t u o apart key reads done h =
        let (b, s, f) = shadow_insert-primary schema x laws proper name r k p gen t u c key done in
        Shows-if schema x read name gen c t (k == j) o p r u
          (f ∙ ap (λ d. if d then ok (some p) else x.find t "primary" c) (same_bytes k b apart s))
          reads h

    pub shadow_delete-Shows :
        (k : V) (old : Option R) (t u : T) (o : Option R)
        → (schema.serialize_key k ≡ ok c → k ≡ j)
        → shadow_delete schema x name k old gen t ≡ ok u
        → Index t o
        → Index u (if k == j then none else o)
    shadow_delete-Shows k old t u o apart done h =
        let (b, s, f) = shadow_delete-primary schema x laws proper name k old gen t u c done in
        Shows-unless schema x read name gen c t (k == j) o u
          (f ∙ ap (λ d. if d then ok none else x.find t "primary" c) (same_bytes k b apart s)) h

    pub apply_deletes-Shows :
        (ks : Dict V (Unit {0})) (t u : T) (o : Option R)
        → AreApart schema j c ks
        → apply_deletes schema x read name gen ks t ≡ ok u
        → Index t o
        → Index u (if contains ks j then none else o)
    unfolding apply_deletes get
    apply_deletes-Shows [] t u o apart done h = subst (λ w. Index w o) (ok_inj done) h
    apply_deletes-Shows ((k, v) ∷ ks) t u o apart done h =
        let (old, e1, rest) = bind-ok (read_committed_record schema x read k t) _ u done in
        let (w, e2, later) = bind-ok (shadow_delete schema x name k old gen t) _ u rest in
        subst (Index u) (collapse (k == j) (get ks j)) (
          apply_deletes-Shows ks w u _ apart.1 later (shadow_delete-Shows k old t w o apart.0 e2 h))
      where
        present : Option (Unit {0}) → Bool
        present none = false
        present (some q) = true

        collapse :
            (a : Bool) (g : Option (Unit {0}))
            → (if (elim g as (λ q. Bool) [ none ↦ false | some q ↦ true ])
                then none
                else (if a then none else o))
              ≡ (if (elim (if a then some v else g) as (λ q. Bool) [ none ↦ false | some q ↦ true ])
                  then none
                  else o)
        collapse true none = refl
        collapse true (some q) = refl
        collapse false none = refl
        collapse false (some q) = refl

    -- A record that is entered under its key, behind which the key does not come again.
    entered :
        (k : V) (r : R) (rs : Dict V R) (o : Option R)
        → get rs k ≡ none
        → or_else (get rs j) (if k == j then some r else o) ≡ or_else (get ((k, r) ∷ rs) j) o
    unfolding get
    entered k r rs o fresh = elim (Bool-cases (k == j)) [
      | inl same ↦ rw (same, ap (get rs) (sym ((e.equals_iff k j).0 same)) ∙ fresh)
      | inr other ↦ rw other
    ]

    pub apply_inserts-Shows :
        (rs more : Dict V R) (ps left : List RecordPointer) (t u : T) (o : Option R)
        → AreApart schema j c rs
        → apply_inserts schema x read name gen rs ps t ≡ ok (u, left)
        → AllKeyed schema.primary_key rs
        → IsDistinct rs
        → Reads read (rs ++ more) ps
        → Index t o
        → Index u (or_else (get rs j) o) × Reads read more left
    unfolding apply_inserts get
    apply_inserts-Shows [] more ps left t u o apart done keyed distinct reads h = (
      subst (λ w. Index w o) (ap (λ q. q.0) (ok_inj done)) h,
      subst (Reads read more) (ap (λ q. q.1) (ok_inj done)) reads,
    )
    apply_inserts-Shows ((k, r) ∷ rs) more [] left t u o apart done keyed distinct reads h =
        absurd (cc)
    apply_inserts-Shows ((k, r) ∷ rs) more (p ∷ ps) left t u o apart done keyed distinct reads h =
        let (w, first, later) = bind-ok (shadow_insert schema x name r p gen t) _ (u, left) done in
        let (shows, rest) =
          apply_inserts-Shows rs more ps left w u _ apart.1 later keyed.1 distinct.1 reads.1
            (shadow_insert-Shows r k p t w o apart.0 keyed.0 reads.0 first h) in
        (subst (Index u) (entered k r rs o distinct.0) shows, rest)

    pub apply_updates-Shows :
        (rs : Dict V R) (ps : List RecordPointer) (t u : T) (o : Option R)
        → AreApart schema j c rs
        → apply_updates schema x read name gen rs ps t ≡ ok u
        → AllKeyed schema.primary_key rs
        → IsDistinct rs
        → Reads read rs ps
        → Index t o
        → Index u (or_else (get rs j) o)
    unfolding apply_updates get
    apply_updates-Shows [] ps t u o apart done keyed distinct reads h =
        subst (λ w. Index w o) (ok_inj done) h
    apply_updates-Shows ((k, r) ∷ rs) [] t u o apart done keyed distinct reads h = absurd (cc)
    apply_updates-Shows ((k, r) ∷ rs) (p ∷ ps) t u o apart done keyed distinct reads h =
        let (old, found, e1) =
          bind-ok (read_committed_record schema x read k t) _ u (
            sym (apply_updates-keyed schema x laws read name gen k k r rs p ps t keyed.0) ∙ done) in
        let (w, gone, e2) = bind-ok (shadow_delete schema x name k old gen t) _ u e1 in
        let (y, entry, later) = bind-ok (shadow_insert schema x name r p gen w) _ u e2 in
        subst (Index u) (entered k r rs o distinct.0) (
          apply_updates-Shows rs ps y u _ apart.1 later keyed.1 distinct.1 reads.1 (
            subst (Index y) (twice (k == j)) (
              shadow_insert-Shows r k p w y _ apart.0 keyed.0 reads.0 entry
                (shadow_delete-Shows k old t w o apart.0 gone h))))
      where
        twice :
            (b : Bool) → (if b then some r else (if b then none else o)) ≡ (if b then some r else o)
        twice true = refl
        twice false = refl

    -- What the index shows of the key behind all the loops.
    pub commit_table-Shows :
        (c' : TableChangeSet V R) (ps : List RecordPointer) (t u : T) (o : Option R)
        → AreApartChanges schema j c c'
        → commit_table schema x read name gen c' ps t ≡ ok u
        → AllKeyed schema.primary_key c'.inserts
        → AllKeyed schema.primary_key c'.updates
        → IsDistinct c'.inserts
        → IsDistinct c'.updates
        → Reads read (c'.inserts ++ c'.updates) ps
        → Index t o
        → Index u (
            or_else (get c'.updates j) (
              or_else
                (get c'.inserts j)
                (if contains c'.deletes j then none else (if c'.cleared then none else o))))
    unfolding commit_table
    commit_table-Shows c' ps t u o apart done ki ku di du reads h =
        let (a, deleted, e1) =
          bind-ok
            (apply_deletes schema x read name gen c'.deletes (if c'.cleared then x.fresh else t)) _
            u done in
        let ((b, left), inserted, e2) =
          bind-ok (apply_inserts schema x read name gen c'.inserts ps a) _ u e1 in
        let (d, updated, last) =
          bind-ok (apply_updates schema x read name gen c'.updates left b) _ u e2 in
        let shows_a =
          apply_deletes-Shows c'.deletes _ a _ apart.deletes deleted (start c'.cleared) in
        let (shows_b, rest) =
          apply_inserts-Shows c'.inserts c'.updates ps left a b _ apart.inserts inserted ki di reads
            shows_a in
        finish (is_modified schema x read name gen c') d _ last
          (apply_updates-Shows c'.updates left b d _ apart.updates updated ku du rest shows_b)
      where
        start : (b : Bool) → Index (if b then x.fresh else t) (if b then none else o)
        start true = laws.find-fresh "primary" c
        start false = h

        finish :
            (b : Bool) (d : T) (q : Option R)
            → (if b then shadow_commit schema x gen d else ok d) ≡ ok u
            → Index d q
            → Index u q
        finish true d q last shows =
            shadow_commit-Shows schema x read name gen c laws proper d u q last shows
        finish false d q last shows = subst (λ w. Index w q) (ok_inj last) shows
