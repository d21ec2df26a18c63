-- ===== src/Commit/Tests.antt =====
-- Commits on the database of `Sample`.
use masterkeeper.Base.{
  ℕ, ◌≤◌, length, String, true, false, Option, none, some, [], ◌∷◌, ◌++◌, ◌≡◌, ◌≢◌, refl, sym, ap,
  ◌∙◌, arith, ◌==◌, ◌⊎◌, inl, inr, nat_eq, string_eq, bytes_eq, Bool-cases,
}
use masterkeeper.Base.Dict.{Dict, get, put, contains}
use masterkeeper.Base.Result.{Result, ok, err, ok_inj}
use masterkeeper.Storage.{RecordPointer}
use masterkeeper.Transaction.State.{TableChangeSet}
use mathlib.Core.Path.{subst, subst₂}
use masterkeeper.Transaction.State.{is_empty, get_table_changes, add_change, remove_change}
use masterkeeper.Transaction.Table.{
  update, update_at, insert, insert_at, staged_update, old_record, key_exists, update_index_changes,
  add_index_changes, remove_old,
}
use masterkeeper.Transaction.View.{committed_view, staged_view, base_view}
use masterkeeper.Transaction.Calls.{run_calls, perform, run_spec}
use masterkeeper.Commit.Shadow.{
  Failure, shadow_insert, shadow_delete, shadow_commit, insert_entries, delete_entries,
  insert_entry, delete_entry, delete_old, read_committed_record,
}
use masterkeeper.Commit.Apply.{
  Database, pointers_of, commit_state, committed_of, commit_changes, commit_table, apply_deletes,
  apply_inserts, apply_updates, is_modified,
}
use masterkeeper.Commit.Primary.{AreApartChanges}
use masterkeeper.Commit.Loops.{Reads}
use masterkeeper.Commit.Published.{AreApartIn}
use masterkeeper.Commit.Moved.{commit_table-moved_value}
use masterkeeper.Commit.Unique.{
  indexed_value, validate_unique_indexes, validate_indexes, validate_index, check_records,
  check_conflict, is_taken, removed_values, remove_value,
}
use masterkeeper.Commit.Uniqueness.{IsIndexed}
use masterkeeper.Commit.Validation.{validate_unique_indexes-unique}
use masterkeeper.Commit.Maps.{Tree, map_indexes}
use masterkeeper.Commit.Idle.{AreIdle}
use masterkeeper.Commit.Completion.{AreEnough, commit_state-succeeds}
use masterkeeper.Commit.Run.{fields_of, called, AreStored, commit_state-run_calls}
use masterkeeper.Commit.Sample.{
  Row, by_value, row_schema, not_primary, row_schema-IsSchema, same_row_key, pointer, read_row,
  users_tree, database, database-IsHealthy, calls, pointers, same_value, changed,
}

called-changes :
    (called row_schema map_indexes same_value read_row database 3 calls).change_set.table_changes
    ≡ changed
unfolding run_calls perform update update_at insert insert_at get_table_changes get put contains
    staged_update old_record key_exists committed_of update_index_changes add_index_changes
    remove_old add_change remove_change
called-changes = refl

abbrev committed_result : Result Failure (Database Tree)
committed_result = commit_state row_schema map_indexes read_row pointers changed database

abbrev database_of : Result Failure (Database Tree) → Database Tree
database_of (ok d) = d
database_of (err x) = database

commit_succeeds : committed_result ≡ ok (database_of committed_result)
unfolding commit_state commit_changes commit_table apply_deletes apply_inserts apply_updates
    is_modified shadow_insert shadow_delete shadow_commit insert_entries delete_entries insert_entry
    delete_entry delete_old read_committed_record get put is_empty
commit_succeeds = refl

pointers-AreStored : AreStored row_schema map_indexes same_value read_row pointers changed
unfolding get
pointers-AreStored name c here = elim (Bool-cases ("users" == name)) [
  | inl same ↦
      subst₂ (λ n d. Reads (read_row n) (d.inserts ++ d.updates) (pointers_of pointers n))
        ((string_eq.equals_iff "users" name).0 same) (staged_record same) (refl, (refl, tt))
  | inr other ↦ absurd (ground (arith, other, here))
]
  where
    staged_record :
        ("users" == name) ≡ true
        → record {
          cleared = false;
          inserts = (2, (2, 6)) ∷ [];
          updates = (1, (1, 7)) ∷ [];
          deletes = [];
        }
          ≡ c
    staged_record same = ground (arith, same, here)

-- The keys 1 and 2 of the changes serialize otherwise.
one-apart : AreApartIn row_schema map_indexes changed "users" 1
unfolding get
one-apart cs c here at_one = subst (AreApartChanges row_schema 1 c) (the_changes cs here) (record {
  deletes = tt;
  inserts = (λ p. same_row_key 2 1 (p ∙ sym at_one), tt);
  updates = (λ p. refl, tt);
})
  where
    the_changes :
        (cs : TableChangeSet ℕ Row)
        → get changed "users" ≡ some cs
        → record {
          cleared = false;
          inserts = (2, (2, 6)) ∷ [];
          updates = (1, (1, 7)) ∷ [];
          deletes = [];
        }
          ≡ cs
    the_changes cs here = ground (arith, here)

commit_state-run_calls_example :
    committed_view
      (committed_of row_schema map_indexes read_row (database_of committed_result))
      "users"
      1
    ≡ run_spec
        (fields_of row_schema same_value)
        calls
        (committed_view (committed_of row_schema map_indexes read_row database))
        "users"
        1
unfolding get
commit_state-run_calls_example =
    commit_state-run_calls row_schema same_value read_row database 3 calls database-IsHealthy
      row_schema-IsSchema pointers (database_of committed_result)
      (subst (AreStored row_schema map_indexes same_value read_row pointers) (sym called-changes)
        pointers-AreStored)
      (ap (λ c. commit_state row_schema map_indexes read_row pointers c database) called-changes
        ∙ commit_succeeds)
      "users" (record { table_name = "users"; index_metadata_list = by_value ∷ [] }) 1 refl
      (subst (λ m. AreApartIn row_schema map_indexes m "users" 1) (sym called-changes) one-apart)

-- The value 5 goes from the user 1 to a new user 2.
abbrev move : TableChangeSet ℕ Row
move = record {
  cleared = false;
  inserts = (2, (2, 5)) ∷ [];
  updates = (1, (1, 7)) ∷ [];
  deletes = [];
}

abbrev moved_result : Result Failure Tree
moved_result =
    commit_table row_schema map_indexes (read_row "users") "users" 1 move
      (pointer 2 5 ∷ pointer 1 7 ∷ []) users_tree

abbrev tree_in : Result Failure Tree → Tree
tree_in (ok t) = t
tree_in (err x) = users_tree

move_succeeds : moved_result ≡ ok (tree_in moved_result)
unfolding commit_table apply_deletes apply_inserts apply_updates is_modified shadow_insert
    shadow_delete shadow_commit insert_entries delete_entries insert_entry delete_entry delete_old
    read_committed_record get put
move_succeeds = refl

differ : row_schema.serialize_key 7 ≢ ok (5 ∷ [])
differ p = ground (arith, ok_inj p)

commit_table-moved_value_example :
    (map_indexes.find (tree_in moved_result) "by_value" (5 ∷ []) ≡ ok none)
    × ((p : RecordPointer) × (map_indexes.find (tree_in moved_result) "primary" (2 ∷ [])
          ≡ ok (some p))
        × (read_row "users" p ≡ ok (2, 5)))
unfolding get
commit_table-moved_value_example =
    commit_table-moved_value row_schema "users" by_value refl not_primary (λ r. refl) 1
      (read_row "users") row_schema-IsSchema ((2, (2, 5)) ∷ []) 1 (1, 7) 5 7 (1, 5) (2, 5)
      (pointer 1 5) (pointer 2 5 ∷ pointer 1 7 ∷ []) users_tree (tree_in moved_result) 2 (5 ∷ [])
      (1 ∷ []) (2 ∷ []) (refl, tt) (refl, tt) refl refl (refl, (refl, tt)) refl refl refl refl refl
      refl differ refl refl refl (λ p. same_row_key 2 1 p, tt)
      (record { deletes = tt; inserts = (λ p. refl, tt); updates = (λ p. same_row_key 1 2 p, tt) })
      move_succeeds

moves : Dict String (TableChangeSet ℕ Row)
moves = ("users", move) ∷ []

users_held : ℕ → Option Row
users_held = committed_view (committed_of row_schema map_indexes read_row database) "users"

-- The tree answers for the one record.
users-IsIndexed :
    IsIndexed row_schema map_indexes (read_row "users") "users" users_tree by_value users_held
unfolding users_held committed_view committed_of read_committed_record get
users-IsIndexed = record {
  reads = λ k. elim (Bool-cases (k == 1)) [
    | inl one ↦ ground (arith, one)
    | inr other ↦ ground (arith, other)
  ];
  found = λ k v r held has. elim (Bool-cases (k == 1)) [
    | inl one ↦ (
      5 ∷ [],
      pointer 1 5,
      (1, 5),
      ap (λ n. ok (n ∷ [])) (five k v r one held has),
      refl,
      refl,
      ap some (sym ((nat_eq.equals_iff k 1).0 one)),
    )
    | inr other ↦ absurd (ground (arith, other, held))
  ];
}
  where
    the_row : (k : ℕ) (r : Row) → (k == 1) ≡ true → users_held k ≡ some r → (1, 5) ≡ r
    the_row k r one held = ground (arith, one, held)

    five :
        (k v : ℕ) (r : Row)
        → (k == 1) ≡ true
        → users_held k ≡ some r
        → indexed_value row_schema map_indexes (read_row "users") "users" users_tree by_value r
          ≡ some v
        → v ≡ 5
    five k v r one held has = ground (arith, ap (λ q. q.1) (the_row k r one held), has)

moves_valid : validate_unique_indexes row_schema map_indexes read_row database moves ≡ ok tt
unfolding validate_unique_indexes validate_indexes validate_index check_records check_conflict
    is_taken removed_values remove_value read_committed_record get put is_empty moves
moves_valid = refl

two_apart : ◌≢◌ {A = ℕ} 2 1
two_apart p = omega arith

validate_unique_indexes-unique_example :
    indexed_value row_schema map_indexes (read_row "users") "users" users_tree by_value (1, 7)
    ≢ some 5
unfolding moves get users_held staged_view base_view
validate_unique_indexes-unique_example =
    validate_unique_indexes-unique row_schema map_indexes read_row database moves "users" move
      (record { table_name = "users"; index_metadata_list = by_value ∷ [] }) [] [] by_value
      moves_valid refl refl refl refl users-IsIndexed 2 1 5 (2, 5) (1, 7) two_apart refl refl refl

pointers-AreEnough :
    AreEnough row_schema map_indexes same_value read_row database 3 calls database-IsHealthy
      pointers
unfolding get
pointers-AreEnough name c here = elim (Bool-cases ("users" == name)) [
  | inl same ↦
      subst₂ (λ n d. length (d.inserts ++ d.updates) ≤ length (pointers_of pointers n))
        ((string_eq.equals_iff "users" name).0 same)
        (staged_record same (sym (ap (λ m. get m name) called-changes) ∙ here)) (omega arith)
  | inr other ↦ absurd (ground (arith, other, sym (ap (λ m. get m name) called-changes) ∙ here))
]
  where
    staged_record :
        ("users" == name) ≡ true
        → get changed name ≡ some c
        → record {
          cleared = false;
          inserts = (2, (2, 6)) ∷ [];
          updates = (1, (1, 7)) ∷ [];
          deletes = [];
        }
          ≡ c
    staged_record same there = ground (arith, same, there)

commit_state-succeeds_example :
    (done : Database Tree) × (commit_state row_schema map_indexes read_row pointers
        (called row_schema map_indexes same_value read_row database 3
          calls).change_set.table_changes
        database
      ≡ ok done)
    × (((done ≡ database)
          × AreIdle
              (called row_schema map_indexes same_value read_row database 3
                calls).change_set.table_changes)
        ⊎ ((done.generation ≡ 1)
            × ¬ AreIdle
                (called row_schema map_indexes same_value read_row database 3
                  calls).change_set.table_changes))
commit_state-succeeds_example =
    commit_state-succeeds row_schema same_value read_row database 3 calls database-IsHealthy
      row_schema-IsSchema pointers
      (subst (AreStored row_schema map_indexes same_value read_row pointers) (sym called-changes)
        pointers-AreStored)
      pointers-AreEnough
