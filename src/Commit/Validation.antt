-- ===== src/Commit/Validation.antt =====
-- `validateUniqueIndexes` over the tables and indexes of a transaction.
use masterkeeper.Base.{
  ℕ, String, Bool, true, false, some, List, [], ◌∷◌, ◌++◌, ◌≡◌, ◌≢◌, refl, sym, ap, ◌∙◌, Comparable,
  ◌==◌, arith, Bool-cases, Option-cases, inl, inr, string_eq,
}
use mathlib.Core.Path.{subst}
use masterkeeper.Base.Dict.{Dict, get}
use masterkeeper.Base.Result.{bind-ok, Result, ok}
use masterkeeper.Storage.{RecordPointer}
use masterkeeper.Transaction.State.{IndexMetadata, TableState, TableChangeSet, is_empty}
use masterkeeper.Transaction.View.{committed_view, staged_view, base_view}
use masterkeeper.Commit.Indexes.{Indexes}
use masterkeeper.Commit.Shadow.{Schema}
use masterkeeper.Commit.Apply.{Database, tree_of, committed_of}
use masterkeeper.Commit.Unique.{
  indexed_value, validate_index, validate_indexes, validate_unique_indexes,
}
use masterkeeper.Commit.Uniqueness.{IsIndexed, committed_unique, one_key}

module _ {V R T : Type 0} ⦃e : Comparable V⦄ (schema : Schema V R) (x : Indexes T) where
  -- Each unique index of the list is validated.
  validate_indexes-each :
      (read : RecordPointer → Result ℕ R) (name : String) (t : T) (c : TableChangeSet V R)
      (before after : List IndexMetadata) (m : IndexMetadata)
      → m.unique ≡ true
      → validate_indexes schema x read name t c (before ++ m ∷ after) ≡ ok tt
      → (added : Dict V V) × (validate_index schema x read name t m c ≡ ok added)
  unfolding validate_indexes
  validate_indexes-each read name t c [] after m unique eq =
      let (added, valid, rest) =
        bind-ok (validate_index schema x read name t m c)
          (λ added. validate_indexes schema x read name t c after) tt
          (ground (arith, unique, eq)) in
      (added, valid)
  validate_indexes-each read name t c (n ∷ before) after m unique eq = elim (Bool-cases n.unique) [
    | inl asked ↦
        let (added, valid, rest) =
          bind-ok (validate_index schema x read name t n c)
            (λ added. validate_indexes schema x read name t c (before ++ m ∷ after)) tt
            (ground (arith, asked, eq)) in
        validate_indexes-each read name t c before after m unique rest
    | inr other ↦
        validate_indexes-each read name t c before after m unique (ground (arith, other, eq))
  ]

  -- Without changes the transaction sees what is committed.
  empty_view :
      (d : Database T) (read : String → RecordPointer → Result ℕ R) (name : String) (cleared : Bool)
      (inserts updates : Dict V R) (deletes : Dict V (Unit {0})) (k : V)
      → is_empty
          (record { cleared = cleared; inserts = inserts; updates = updates; deletes = deletes })
        ≡ true
      → staged_view
          (committed_of schema x read d)
          name
          (record { cleared = cleared; inserts = inserts; updates = updates; deletes = deletes })
          k
        ≡ committed_view (committed_of schema x read d) name k
  unfolding is_empty staged_view base_view get
  empty_view d read name false [] [] [] k h = refl
  empty_view d read name true inserts updates deletes k h = absurd (cc)
  empty_view d read name false (r ∷ rs) updates deletes k h = absurd (cc)
  empty_view d read name false [] (r ∷ rs) deletes k h = absurd (cc)
  empty_view d read name false [] [] (r ∷ rs) k h = absurd (cc)

  module _ (read : String → RecordPointer → Result ℕ R) (d : Database T) where
    later :
        (n : String) (b : TableChangeSet V R) (rest : Dict String (TableChangeSet V R))
        → validate_unique_indexes schema x read d ((n, b) ∷ rest) ≡ ok tt
        → validate_unique_indexes schema x read d rest ≡ ok tt
    unfolding validate_unique_indexes
    later n b rest eq = elim (Bool-cases (is_empty b)) [
      | inl idle ↦ ground (arith, idle, eq)
      | inr busy ↦ elim (Option-cases (get d.tables n)) [
        | inl gone ↦ ground (arith, busy, gone, eq)
        | inr (state, known) ↦
            let (done, first, last) =
              bind-ok
                (validate_indexes schema x (read n) n (tree_of x d.trees n) b
                  state.index_metadata_list)
                (λ done. validate_unique_indexes schema x read d rest) tt
                (ground (arith, busy, known, eq)) in
            last
      ]
    ]

    now :
        (n : String) (b : TableChangeSet V R) (rest : Dict String (TableChangeSet V R))
        (state : TableState)
        → is_empty b ≡ false
        → get d.tables n ≡ some state
        → validate_unique_indexes schema x read d ((n, b) ∷ rest) ≡ ok tt
        → validate_indexes schema x (read n) n (tree_of x d.trees n) b state.index_metadata_list
          ≡ ok tt
    unfolding validate_unique_indexes
    now n b rest state busy known eq =
        let (done, first, last) =
          bind-ok
            (validate_indexes schema x (read n) n (tree_of x d.trees n) b state.index_metadata_list)
            (λ done. validate_unique_indexes schema x read d rest) tt
            (ground (arith, busy, known, eq)) in
        first

    -- The first entry of a table, where it has changes, is validated.
    validate_unique_indexes-each :
        (changes : Dict String (TableChangeSet V R)) (name : String) (c : TableChangeSet V R)
        (state : TableState)
        → get changes name ≡ some c
        → is_empty c ≡ false
        → get d.tables name ≡ some state
        → validate_unique_indexes schema x read d changes ≡ ok tt
        → validate_indexes schema x
            (read name)
            name
            (tree_of x d.trees name)
            c
            state.index_metadata_list
          ≡ ok tt
    unfolding get
    validate_unique_indexes-each [] name c state here busy known eq = absurd (cc)
    validate_unique_indexes-each ((n, b) ∷ rest) name c state here busy known eq =
        elim (Bool-cases (n == name)) [
          | inl same ↦
              subst
                (λ q.
                  validate_indexes schema x (read q) q (tree_of x d.trees q) c
                    state.index_metadata_list
                  ≡ ok tt)
                ((string_eq.equals_iff n name).0 same)
                (now n c rest state busy
                  (ap (get d.tables) ((string_eq.equals_iff n name).0 same) ∙ known)
                  (ap (λ q. validate_unique_indexes schema x read d ((n, q) ∷ rest))
                      (sym (first same))
                    ∙ eq))
          | inr other ↦
              validate_unique_indexes-each rest name c state (ground (arith, other, here)) busy
                known (later n b rest eq)
        ]
      where
        first : (n == name) ≡ true → b ≡ c
        first same = ground (arith, same, here)

    -- Behind a successful `validateUniqueIndexes`, take a table of the database with staged
    -- changes and a unique index of it that answers for the committed records. Then no two
    -- records with different keys that the transaction sees in the table have the same value in
    -- that index, whether they are staged or committed.
    pub validate_unique_indexes-unique :
        (changes : Dict String (TableChangeSet V R)) (name : String) (c : TableChangeSet V R)
        (state : TableState) (before after : List IndexMetadata) (m : IndexMetadata)
        → validate_unique_indexes schema x read d changes ≡ ok tt
        → get changes name ≡ some c
        → get d.tables name ≡ some state
        → state.index_metadata_list ≡ before ++ m ∷ after
        → m.unique ≡ true
        → IsIndexed schema x
            (read name)
            name
            (tree_of x d.trees name)
            m
            (committed_view (committed_of schema x read d) name)
        → (j k v : V) (r s : R) → j ≢ k
        → staged_view (committed_of schema x read d) name c j ≡ some r
        → staged_view (committed_of schema x read d) name c k ≡ some s
        → indexed_value schema x (read name) name (tree_of x d.trees name) m r ≡ some v
        → indexed_value schema x (read name) name (tree_of x d.trees name) m s ≢ some v
    validate_unique_indexes-unique changes name c state before after m eq here known listed unique
          indexed j k v r s differ hj hk qr qs =
        elim (Bool-cases (is_empty c)) [
          | inl idle ↦ differ (
              committed_unique schema x (read name) name (tree_of x d.trees name) m
                (committed_view (committed_of schema x read d) name) indexed j k v r s
                (sym (empty_view d read name c.cleared c.inserts c.updates c.deletes j idle) ∙ hj)
                (sym (empty_view d read name c.cleared c.inserts c.updates c.deletes k idle) ∙ hk)
                qr qs)
          | inr busy ↦
              let (added, valid) =
                validate_indexes-each (read name) name (tree_of x d.trees name) c before after m
                  unique
                  (ap (validate_indexes schema x (read name) name (tree_of x d.trees name) c)
                      (sym listed)
                    ∙ validate_unique_indexes-each changes name c state here busy known eq) in
              differ (
                one_key schema x (read name) name (tree_of x d.trees name) m
                  (committed_of schema x read d) indexed c added valid j k v r s hj hk qr qs)
        ]
