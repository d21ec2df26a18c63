-- ===== src/Commit/Published.antt =====
-- `Commit` and the published state: what a later transaction reads of it.
use masterkeeper.Base.{
  ℕ, ◌+◌, String, true, false, refl, Bool-cases, Option, none, some, List, ◌++◌, ◌≡◌, sym, ap, ◌∙◌,
  if◌then◌else◌, Comparable, arith, string_eq, inl, inr, Option-cases,
}
use mathlib.Core.Path.{subst}
use masterkeeper.Base.Dict.{Dict, get, contains, IsDistinct}
use masterkeeper.Base.Result.{bind-ok, Result, ok, ok_inj}
use masterkeeper.Storage.{RecordPointer}
use masterkeeper.Transaction.State.{Committed, TableState, TableChangeSet, new_table_change_set}
use masterkeeper.Transaction.View.{
  IsHealthy, committed_view, staged_view, base_view, staged_view-empty,
}
use masterkeeper.Transaction.Invariant.{IsStaged, IsStagedAt}
use masterkeeper.Transaction.KeyedChanges.{AllKeyed}
use masterkeeper.Commit.Indexes.{Indexes, IsIndexes}
use masterkeeper.Commit.Shadow.{Schema}
use masterkeeper.Commit.Apply.{
  Database, tree_of, pointers_of, commit_changes, has_writes, commit_state, committed_of,
}
use masterkeeper.Commit.Idle.{staged_changes, idle_view}
use masterkeeper.Commit.Entries.{IsSchema}
use masterkeeper.Commit.Changes.{commit_changes-others, commit_changes-at}
use masterkeeper.Commit.Primary.{AreApartChanges, Shows}
use masterkeeper.Commit.Loops.{or_else, Reads, commit_table-Shows}
use masterkeeper.Commit.Shown.{shown_view, view_shown, serialized}

module _ {V R T : Type 0} ⦃e : Comparable V⦄ (schema : Schema V R) (x : Indexes T) where
  -- The changes of a table as the operations of a transaction leave them, with the pointers under
  -- which the log has stored the records: first those of the inserts, then those of the updates.
  pub record IsReady (read : String → RecordPointer → Result ℕ R) (d : Database T)
      (pointers : Dict String (List RecordPointer)) (name : String) (c : TableChangeSet V R)
      : Type 0 where
    pub staged : IsStaged (committed_of schema x read d) name c
    pub inserts_keyed : AllKeyed schema.primary_key c.inserts
    pub updates_keyed : AllKeyed schema.primary_key c.updates
    pub inserts_distinct : IsDistinct c.inserts
    pub updates_distinct : IsDistinct c.updates
    pub stored : Reads (read name) (c.inserts ++ c.updates) (pointers_of pointers name)

  -- None of the changes of a table has another key that serializes like this one.
  abbrev pub AreApartIn : Dict String (TableChangeSet V R) → String → V → Type 0
  AreApartIn changes name j =
      (cs : TableChangeSet V R) (c : List ℕ)
      → get changes name ≡ some cs
      → schema.serialize_key j ≡ ok c
      → AreApartChanges schema j c cs

  -- The staged view, with the updates first as the loops of the commit have them.
  abbrev after_loops : Committed V R → String → TableChangeSet V R → V → Option R
  after_loops committed name c j = or_else (get c.updates j) (
      or_else (get c.inserts j) (
        if contains c.deletes j
        then none
        else (if c.cleared then none else committed_view committed name j)))

  staged_last :
      (committed : Committed V R) (name : String) (c : TableChangeSet V R) (j : V)
      → IsStagedAt committed name c j
      → after_loops committed name c j ≡ staged_view committed name c j
  unfolding staged_view base_view
  staged_last committed name c j staged = elim (Option-cases (get c.inserts j)) [
    | inl fresh ↦ ground (arith, fresh)
    | inr (r, present) ↦ ground (arith, present, (staged.0 r present).0)
  ]

  -- The trees that `commit_state` publishes.
  commit_state-trees :
      (read : String → RecordPointer → Result ℕ R) (pointers : Dict String (List RecordPointer))
      (changes : Dict String (TableChangeSet V R)) (d done : Database T)
      → has_writes schema x changes ≡ true
      → commit_state schema x read pointers changes d ≡ ok done
      → (commit_changes schema x read d.tables (d.generation + 1) pointers changes d.trees
          ≡ ok done.trees)
        × (done.tables ≡ d.tables)
        × (done.generation ≡ d.generation + 1)
  unfolding commit_state
  commit_state-trees read pointers changes d done writes eq =
      let (trees, made, last) =
        bind-ok (commit_changes schema x read d.tables (d.generation + 1) pointers changes d.trees)
          (λ trees. ok (record { generation = d.generation + 1; tables = d.tables; trees = trees }))
          done (rw writes at eq) in
      (
        made ∙ ap (λ q. ok q.trees) (ok_inj last),
        ap (λ q. q.tables) (sym (ok_inj last)),
        ap (λ q. q.generation) (sym (ok_inj last)),
      )

  -- With nothing to write the state stays.
  pub commit_state-idle :
      (read : String → RecordPointer → Result ℕ R) (pointers : Dict String (List RecordPointer))
      (changes : Dict String (TableChangeSet V R)) (d : Database T)
      → has_writes schema x changes ≡ false
      → commit_state schema x read pointers changes d ≡ ok d
  unfolding commit_state
  commit_state-idle read pointers changes d idle = rw idle refl

  module _ (laws : IsIndexes x) (proper : IsSchema schema)
      (read : String → RecordPointer → Result ℕ R) (pointers : Dict String (List RecordPointer))
      (changes : Dict String (TableChangeSet V R)) (d done : Database T)
      (healthy : IsHealthy (committed_of schema x read d)) (distinct : IsDistinct changes)
      (writes : has_writes schema x changes ≡ true)
      (eq : commit_state schema x read pointers changes d ≡ ok done) (name : String)
      (state : TableState) (j : V) (known : get d.tables name ≡ some state) (c : List ℕ)
      (at_j : schema.serialize_key j ≡ ok c) where
    abbrev Index : T → Option R → Type 0
    Index = Shows schema x (read name) name (d.generation + 1) c

    -- What the index shows behind the commit, the transaction reads of the published state.
    published_view :
        (o : Option R)
        → Index (tree_of x done.trees name) o
        → committed_view (committed_of schema x read done) name j ≡ o
    published_view o h =
        shown_view schema x read name state (d.generation + 1) j c at_j done o
          (ap (λ q. get q name) (commit_state-trees read pointers changes d done writes eq).1
            ∙ known)
          h

    before : Index (tree_of x d.trees name) (committed_view (committed_of schema x read d) name j)
    before = view_shown schema x read name state (d.generation + 1) j c at_j d known healthy

    unchanged_view :
        get changes name ≡ none
        → committed_view (committed_of schema x read done) name j
          ≡ committed_view (committed_of schema x read d) name j
    unchanged_view none_staged = published_view _ (
        subst
          (λ q.
            Index (elim q as (λ q. T) [ none ↦ x.fresh | some t ↦ t ])
              (committed_view (committed_of schema x read d) name j))
          (sym (
            commit_changes-others schema x read d.tables (d.generation + 1) pointers changes d.trees
              done.trees name none_staged
              (commit_state-trees read pointers changes d done writes eq).0))
          before)

    changed_view :
        (cs : TableChangeSet V R)
        → AreApartChanges schema j c cs
        → get changes name ≡ some cs
        → IsReady read d pointers name cs
        → committed_view (committed_of schema x read done) name j
          ≡ staged_view (committed_of schema x read d) name cs j
    changed_view cs apart here ready =
        let (u, made, stands) =
          commit_changes-at schema x read d.tables (d.generation + 1) pointers changes d.trees
            done.trees name cs state here known distinct
            (commit_state-trees read pointers changes d done writes eq).0 in
        published_view (after_loops (committed_of schema x read d) name cs j) (
          subst
            (λ q.
              Index (elim q as (λ q. T) [ none ↦ x.fresh | some t ↦ t ])
                (after_loops (committed_of schema x read d) name cs j))
            (sym stands)
            (commit_table-Shows schema x (read name) name (d.generation + 1) laws proper j c at_j cs
              (pointers_of pointers name) (tree_of x d.trees name) u _ apart made
              ready.inserts_keyed ready.updates_keyed ready.inserts_distinct ready.updates_distinct
              ready.stored before))
        ∙ staged_last (committed_of schema x read d) name cs j (ready.staged j)

  pub commit_state-view :
      (laws : IsIndexes x) (proper : IsSchema schema) (read : String → RecordPointer → Result ℕ R)
      (pointers : Dict String (List RecordPointer)) (changes : Dict String (TableChangeSet V R))
      (d done : Database T)
      → IsHealthy (committed_of schema x read d)
      → IsDistinct changes
      → ((name : String) (c : TableChangeSet V R)
          → get changes name ≡ some c
          → IsReady read d pointers name c)
      → commit_state schema x read pointers changes d ≡ ok done
      → (name : String) (state : TableState) (j : V) → get d.tables name ≡ some state
      → AreApartIn changes name j
      → committed_view (committed_of schema x read done) name j
        ≡ staged_view (committed_of schema x read d) name (staged_changes changes name) j
  commit_state-view laws proper read pointers changes d done healthy distinct ready eq name state j
        known apart =
      elim (Bool-cases (has_writes schema x changes)) [
        | inr idle ↦
            ap (λ q. committed_view (committed_of schema x read q) name j)
              (ok_inj (sym eq ∙ commit_state-idle read pointers changes d idle))
            ∙ idle_view schema x (committed_of schema x read d) changes name j idle
        | inl writes ↦
            let (c, at_j) = serialized schema x read d name j healthy in
            elim (Option-cases (get changes name)) [
              | inl none_staged ↦
                  unchanged_view laws proper read pointers changes d done healthy distinct writes eq
                    name state j known c at_j none_staged
                  ∙ unstaged none_staged
              | inr (cs, here) ↦
                  changed_view laws proper read pointers changes d done healthy distinct writes eq
                    name state j known c at_j cs (apart cs c here at_j) here (ready name cs here)
                  ∙ with_changes cs here
            ]
      ]
    where
      unstaged :
          get changes name ≡ none
          → committed_view (committed_of schema x read d) name j
            ≡ staged_view (committed_of schema x read d) name (staged_changes changes name) j
      unstaged h = sym (
          ap (λ q. staged_view (committed_of schema x read d) name q j)
            (ap
              (λ o. elim o as (λ o. TableChangeSet V R) [
                | none ↦ new_table_change_set
                | some c ↦ c
              ])
              h)
          ∙ staged_view-empty (committed_of schema x read d) name j)

      with_changes :
          (cs : TableChangeSet V R)
          → get changes name ≡ some cs
          → staged_view (committed_of schema x read d) name cs j
            ≡ staged_view (committed_of schema x read d) name (staged_changes changes name) j
      with_changes cs h =
          ap
            (λ o.
              staged_view (committed_of schema x read d) name
                (elim o as (λ o. TableChangeSet V R) [ none ↦ new_table_change_set | some c ↦ c ])
                j)
            (sym h)
