-- ===== src/Commit/Completion.antt =====
-- A transaction on indexes that report no error, from its calls to the published state.
use masterkeeper.Base.{
  ℕ, ◌+◌, ◌≤◌, String, Bool, true, Option, some, List, [], ◌∷◌, ◌++◌, ◌≡◌, refl, sym, ◌∙◌,
  Comparable, ◌==◌, arith, length, All, if◌then◌else◌, Bool-cases, Option-cases, ◌⊎◌, inl, inr,
  string_eq,
}
use mathlib.Core.Path.{subst}
use masterkeeper.Base.Dict.{Dict, get, put, get-put, All-get, equals_refl}
use masterkeeper.Base.Result.{bind-eq, Result, ok}
use masterkeeper.Storage.{RecordPointer}
use masterkeeper.Transaction.State.{TableState, TableChangeSet}
use masterkeeper.Transaction.View.{IsHealthy, committed_view}
use masterkeeper.Transaction.KeyedChanges.{AllKeyed}
use masterkeeper.Transaction.Calls.{Call}
use masterkeeper.Commit.Indexes.{Indexes, IsIndexes}
use masterkeeper.Commit.Shadow.{Schema}
use masterkeeper.Commit.Apply.{
  Database, tree_of, pointers_of, commit_changes, has_writes, commit_state, committed_of,
}
use masterkeeper.Commit.Entries.{IsSchema}
use masterkeeper.Commit.Changes.{commit_changes-nil, commit_changes-unknown, commit_changes-known}
use masterkeeper.Commit.Loops.{Reads}
use masterkeeper.Commit.Shown.{serialized, view_shown}
use masterkeeper.Commit.Run.{called, AreStored, called-IsReady, called-IsDistinct}
use masterkeeper.Commit.Success.{IsReliable}
use masterkeeper.Commit.Published.{commit_state-idle}
use masterkeeper.Commit.Idle.{AreIdle, has_writes-AreIdle, has_writes-busy}
use masterkeeper.Commit.Maps.{Tree, map_indexes, map_indexes-IsIndexes, map_indexes-IsReliable}
use masterkeeper.Commit.Total.{IsReadable, commit_table-ok}

module _ {V R T : Type 0} ⦃e : Comparable V⦄ (schema : Schema V R) (x : Indexes T)
    (reliable : IsReliable x)
    (serializes : (v : V) → (b : List ℕ) × (schema.serialize_key v ≡ ok b)) (laws : IsIndexes x)
    (proper : IsSchema schema) (read : String → RecordPointer → Result ℕ R)
    (tables : Dict String TableState) (gen : ℕ) (pointers : Dict String (List RecordPointer)) where
  -- What the loops need of the changes of a table.
  pub record IsProvided (entry : String × TableChangeSet V R) : Type 0 where
    pub inserts_keyed : AllKeyed schema.primary_key entry.1.inserts
    pub updates_keyed : AllKeyed schema.primary_key entry.1.updates
    pub stored :
        Reads (read entry.0) (entry.1.inserts ++ entry.1.updates) (pointers_of pointers entry.0)
    pub enough : length (entry.1.inserts ++ entry.1.updates) ≤ length (pointers_of pointers entry.0)

  abbrev pub AreReadable : Dict String T → Type 0
  AreReadable trees =
      (name : String) (state : TableState)
      → get tables name ≡ some state
      → IsReadable schema x reliable serializes laws proper (read name) name gen
          (tree_of x trees name)

  tree_put :
      (trees : Dict String T) (n : String) (u : T) (name : String)
      → tree_of x (put trees n u) name ≡ (if n == name then u else tree_of x trees name)
  tree_put trees n u name = ground (arith, get-put trees n u name)

  put-AreReadable :
      (trees : Dict String T) (n : String) (u : T)
      → AreReadable trees
      → IsReadable schema x reliable serializes laws proper (read n) n gen u
      → AreReadable (put trees n u)
  put-AreReadable trees n u h k name state known = elim (Bool-cases (n == name)) [
    | inl same ↦
        subst
          (λ q.
            IsReadable schema x reliable serializes laws proper (read q) q gen
              (tree_of x (put trees n u) q))
          ((string_eq.equals_iff n name).0 same)
          (subst (IsReadable schema x reliable serializes laws proper (read n) n gen)
            (sym (tree_put trees n u n ∙ rw (equals_refl n) refl)) k)
    | inr other ↦
        subst (IsReadable schema x reliable serializes laws proper (read name) name gen)
          (sym (tree_put trees n u name ∙ rw other refl)) (h name state known)
  ]

  commit_changes-ok :
      (changes : Dict String (TableChangeSet V R)) (trees : Dict String T)
      → All IsProvided changes
      → AreReadable trees
      → (done : Dict String T) × (commit_changes schema x read tables gen pointers changes trees
          ≡ ok done)
  commit_changes-ok [] trees provided h =
      (trees, commit_changes-nil schema x read tables gen pointers trees)
  commit_changes-ok ((n, c) ∷ rest) trees provided h = elim (Option-cases (get tables n)) [
    | inl gone ↦
        let (done, eq) = commit_changes-ok rest trees provided.1 h in
        (done, commit_changes-unknown schema x read tables gen pointers n c rest trees gone ∙ eq)
    | inr (state, known) ↦
        let (u, table, readable) =
          commit_table-ok schema x reliable serializes laws proper (read n) n gen c
            (pointers_of pointers n) (tree_of x trees n) provided.0.inserts_keyed
            provided.0.updates_keyed provided.0.stored provided.0.enough (h n state known) in
        let (done, eq) =
          commit_changes-ok rest (put trees n u) provided.1
            (put-AreReadable trees n u h readable) in
        (
          done,
          commit_changes-known schema x read tables gen pointers n c rest trees state known
              ∙ bind-eq _ _ _ _ table eq,
        )
  ]

module _ {V R T : Type 0} ⦃e : Comparable V⦄ (schema : Schema V R) (x : Indexes T)
    (values_equal : Option V → Option V → Bool) (read : String → RecordPointer → Result ℕ R)
    (d : Database T) (id : ℕ) (calls : List (Call V R))
    (healthy : IsHealthy (committed_of schema x read d)) where
  abbrev changes : Dict String (TableChangeSet V R)
  changes = (called schema x values_equal read d id calls).change_set.table_changes

  -- The reply of the log has a pointer for each staged record.
  abbrev pub AreEnough : Dict String (List RecordPointer) → Type 0
  AreEnough pointers =
      (name : String) (c : TableChangeSet V R)
      → get changes name ≡ some c
      → length (c.inserts ++ c.updates) ≤ length (pointers_of pointers name)

  commit_state-ok :
      (pointers : Dict String (List RecordPointer)) (trees : Dict String T)
      → has_writes schema x changes ≡ true
      → commit_changes schema x read d.tables (d.generation + 1) pointers changes d.trees ≡ ok trees
      → commit_state schema x read pointers changes d
        ≡ ok (record { generation = d.generation + 1; tables = d.tables; trees = trees })
  unfolding commit_state
  commit_state-ok pointers trees writes eq = rw writes (bind-eq _ _ _ _ eq refl)

  pub commit_state-completes :
      (laws : IsIndexes x) (proper : IsSchema schema) (reliable : IsReliable x)
      (pointers : Dict String (List RecordPointer))
      → AreStored schema x values_equal read pointers changes
      → AreEnough pointers
      → (done : Database T) × (commit_state schema x read pointers changes d ≡ ok done)
        × (((done ≡ d) × AreIdle changes)
            ⊎ ((done.generation ≡ d.generation + 1) × ¬ AreIdle changes))
  commit_state-completes laws proper reliable pointers stored enough =
      let serializes : (v : V) → (b : List ℕ) × (schema.serialize_key v ≡ ok b) =
        λ v. serialized schema x read d "" v healthy in
      let (trees, eq) =
        commit_changes-ok schema x reliable serializes laws proper read d.tables (d.generation + 1)
          pointers changes d.trees
          (All-get _ changes (called-IsDistinct schema x values_equal read d id calls healthy)
            (λ name c here.
              let ready =
                called-IsReady schema x values_equal read d id calls healthy pointers stored name c
                  here in
              record {
                inserts_keyed = ready.inserts_keyed;
                updates_keyed = ready.updates_keyed;
                stored = ready.stored;
                enough = enough name c here;
              }))
          (λ name state known j c at_j. (
            committed_view (committed_of schema x read d) name j,
            view_shown schema x read name state (d.generation + 1) j c at_j d known healthy,
          )) in
      elim (Bool-cases (has_writes schema x changes)) [
        | inl writes ↦ (
          _,
          commit_state-ok pointers trees writes eq,
          inr (refl, has_writes-busy schema x changes writes),
        )
        | inr idle ↦ (
          d,
          commit_state-idle schema x read pointers changes d idle,
          inl (refl, has_writes-AreIdle schema x changes idle),
        )
      ]

module _ {V R : Type 0} ⦃e : Comparable V⦄ (schema : Schema V R)
    (values_equal : Option V → Option V → Bool) (read : String → RecordPointer → Result ℕ R)
    (d : Database Tree) (id : ℕ) (calls : List (Call V R))
    (healthy : IsHealthy (committed_of schema map_indexes read d)) where
  -- Over indexes that are maps: let a transaction begin on a database that answers without errors
  -- and run any sequence of calls, and let the log store its staged records under the pointers of
  -- its reply, one for each record. Then `Commit` succeeds, since no record, key or pointer that it
  -- needs on the way is missing. Where nothing is staged for any table the database stays as it is;
  -- otherwise the state behind `Commit` has the next generation. No secondary index is named like
  -- the primary one.
  pub commit_state-succeeds :
      (proper : IsSchema schema) (pointers : Dict String (List RecordPointer))
      → AreStored schema map_indexes values_equal read pointers
          (called schema map_indexes values_equal read d id calls).change_set.table_changes
      → AreEnough schema map_indexes values_equal read d id calls healthy pointers
      → (done : Database Tree) × (commit_state schema map_indexes read pointers
            (called schema map_indexes values_equal read d id calls).change_set.table_changes
            d
          ≡ ok done)
        × (((done ≡ d)
              × AreIdle
                  (called schema map_indexes values_equal read d id calls).change_set.table_changes)
            ⊎ ((done.generation ≡ d.generation + 1)
                × ¬ AreIdle
                    (called schema map_indexes values_equal read d id
                      calls).change_set.table_changes))
  commit_state-succeeds proper pointers stored enough =
      commit_state-completes schema map_indexes values_equal read d id calls healthy
        map_indexes-IsIndexes proper map_indexes-IsReliable pointers stored enough
