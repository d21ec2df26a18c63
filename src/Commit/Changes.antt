-- ===== src/Commit/Changes.antt =====
-- `Commit` over the tables of a transaction: the tree that each table ends with.
use masterkeeper.Base.{
  ℕ, String, true, false, none, some, List, [], ◌∷◌, ◌≡◌, refl, sym, ap, ◌∙◌, if◌then◌else◌, ◌==◌,
  arith, string_eq, inl, inr, Bool-cases, Option-cases,
}
use mathlib.Core.Path.{subst}
use masterkeeper.Base.Dict.{Dict, get, put, get-put, IsDistinct, equals_refl}
use masterkeeper.Base.Result.{bind-ok, Result, ok, ok_inj, ◌>>=◌}
use masterkeeper.Storage.{RecordPointer}
use masterkeeper.Transaction.State.{TableState, TableChangeSet}
use masterkeeper.Commit.Indexes.{Indexes}
use masterkeeper.Commit.Shadow.{Schema}
use masterkeeper.Commit.Apply.{tree_of, pointers_of, commit_table, commit_changes}

module _ {V R T : Type 0} (schema : Schema V R) (x : Indexes T) where
  module _ (read : String → RecordPointer → Result ℕ R) (tables : Dict String TableState) (gen : ℕ)
      (pointers : Dict String (List RecordPointer)) where
    pub commit_changes-nil :
        (trees : Dict String T)
        → commit_changes schema x read tables gen pointers [] trees ≡ ok trees
    unfolding commit_changes
    commit_changes-nil trees = refl

    pub commit_changes-unknown :
        (n : String) (c : TableChangeSet V R) (rest : Dict String (TableChangeSet V R))
        (trees : Dict String T)
        → get tables n ≡ none
        → commit_changes schema x read tables gen pointers ((n, c) ∷ rest) trees
          ≡ commit_changes schema x read tables gen pointers rest trees
    unfolding commit_changes
    commit_changes-unknown n c rest trees gone = ground (arith, gone)

    pub commit_changes-known :
        (n : String) (c : TableChangeSet V R) (rest : Dict String (TableChangeSet V R))
        (trees : Dict String T) (state : TableState)
        → get tables n ≡ some state
        → commit_changes schema x read tables gen pointers ((n, c) ∷ rest) trees ≡ (
            commit_table schema x (read n) n gen c (pointers_of pointers n) (tree_of x trees n)
            >>= λ u. commit_changes schema x read tables gen pointers rest (put trees n u))
    unfolding commit_changes
    commit_changes-known n c rest trees state found = ground (arith, found)

    -- A table without changes keeps its tree.
    pub commit_changes-others :
        (changes : Dict String (TableChangeSet V R)) (trees done : Dict String T) (name : String)
        → get changes name ≡ none
        → commit_changes schema x read tables gen pointers changes trees ≡ ok done
        → get done name ≡ get trees name
    unfolding get
    commit_changes-others [] trees done name fresh eq =
        ap (λ m. get m name) (sym (ok_inj (sym (commit_changes-nil trees) ∙ eq)))
    commit_changes-others ((n, c) ∷ rest) trees done name fresh eq = elim (Bool-cases (n == name)) [
      | inl same ↦ absurd (cc)
      | inr other ↦ elim (Option-cases (get tables n)) [
        | inl gone ↦
            commit_changes-others rest trees done name (rest_fresh other)
              (sym (commit_changes-unknown n c rest trees gone) ∙ eq)
        | inr (state, found) ↦
            let (u, table, later) =
              bind-ok
                (commit_table schema x (read n) n gen c (pointers_of pointers n)
                  (tree_of x trees n))
                _ done (sym (commit_changes-known n c rest trees state found) ∙ eq) in
            commit_changes-others rest (put trees n u) done name (rest_fresh other) later
            ∙ get-put trees n u name
            ∙ rw other
      ]
    ]
      where
        rest_fresh : (n == name) ≡ false → get rest name ≡ none
        rest_fresh other = ground (arith, other, fresh)

    commit_changes-first :
        (n : String) (c : TableChangeSet V R) (rest : Dict String (TableChangeSet V R))
        (trees done : Dict String T) (state : TableState)
        → get tables n ≡ some state
        → get rest n ≡ none
        → commit_changes schema x read tables gen pointers ((n, c) ∷ rest) trees ≡ ok done
        → (u : T) × (commit_table schema x
              (read n)
              n
              gen
              c
              (pointers_of pointers n)
              (tree_of x trees n)
            ≡ ok u)
          × (get done n ≡ some u)
    commit_changes-first n c rest trees done state found fresh eq =
        let (u, table, later) =
          bind-ok
            (commit_table schema x (read n) n gen c (pointers_of pointers n) (tree_of x trees n)) _
            done (sym (commit_changes-known n c rest trees state found) ∙ eq) in
        (
          u,
          table,
          commit_changes-others rest (put trees n u) done n fresh later
              ∙ get-put trees n u n
              ∙ rw (equals_refl n),
        )

    -- A table with changes ends with the tree that the loops make of its tree.
    pub commit_changes-at :
        (changes : Dict String (TableChangeSet V R)) (trees done : Dict String T) (name : String)
        (c : TableChangeSet V R) (state : TableState)
        → get changes name ≡ some c
        → get tables name ≡ some state
        → IsDistinct changes
        → commit_changes schema x read tables gen pointers changes trees ≡ ok done
        → (u : T) × (commit_table schema x
              (read name)
              name
              gen
              c
              (pointers_of pointers name)
              (tree_of x trees name)
            ≡ ok u)
          × (get done name ≡ some u)
    unfolding get
    commit_changes-at [] trees done name c state here known distinct eq = absurd (cc)
    commit_changes-at ((n, b) ∷ rest) trees done name c state here known distinct eq =
        elim (Bool-cases (n == name)) [
          | inl same ↦
              subst
                (λ m.
                  (u : T) × (commit_table schema x (read m) m gen c (pointers_of pointers m)
                      (tree_of x trees m)
                    ≡ ok u)
                  × (get done m ≡ some u))
                ((string_eq.equals_iff n name).0 same)
                (commit_changes-first n c rest trees done state
                  (ap (get tables) ((string_eq.equals_iff n name).0 same) ∙ known) distinct.0
                  (ap (λ q. commit_changes schema x read tables gen pointers ((n, q) ∷ rest) trees)
                      (sym (first same))
                    ∙ eq))
          | inr other ↦ elim (Option-cases (get tables n)) [
            | inl gone ↦
                commit_changes-at rest trees done name c state (later_here other) known distinct.1
                  (sym (commit_changes-unknown n b rest trees gone) ∙ eq)
            | inr (s, found) ↦
                let (u, table, later) =
                  bind-ok
                    (commit_table schema x (read n) n gen b (pointers_of pointers n)
                      (tree_of x trees n))
                    _ done (sym (commit_changes-known n b rest trees s found) ∙ eq) in
                let (w, made, stands) =
                  commit_changes-at rest (put trees n u) done name c state (later_here other) known
                    distinct.1 later in
                (
                  w,
                  ap
                        (λ q.
                          commit_table schema x (read name) name gen c (pointers_of pointers name)
                            (elim q as (λ q. T) [ none ↦ x.fresh | some t ↦ t ]))
                        (sym (get-put trees n u name ∙ skip trees n u other))
                      ∙ made,
                  stands,
                )
          ]
        ]
      where
        skip :
            (trees : Dict String T) (n : String) (u : T)
            → (n == name) ≡ false
            → (if n == name then some u else get trees name) ≡ get trees name
        skip trees n u other = rw other

        later_here : (n == name) ≡ false → get rest name ≡ some c
        later_here other = ground (arith, other, here)

        first : (n == name) ≡ true → b ≡ c
        first same = ground (arith, same, here)
