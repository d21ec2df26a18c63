-- ===== src/Transaction/Tests.antt =====
-- Runs of a transaction on one table with one committed record. A record is a key and a value.
use masterkeeper.Base.{
  ℕ, String, Bool, true, false, Option, none, some, List, [], ◌∷◌, ◌≡◌, refl, arith, nat_eqb,
  if◌then◌else◌, inl, inr, nat_eq, string_eq, Bool-cases,
}
use masterkeeper.Base.Dict.{get}
use masterkeeper.Base.Int.{pos}
use masterkeeper.Base.Result.{ok}
use masterkeeper.Storage.{RecordPointer}
use masterkeeper.Transaction.State.{absent, at, Committed, Transaction, new_transaction}
use masterkeeper.Transaction.Table.{Fields, insert, update, upsert, delete_by_id, clear, find_by_id}
use masterkeeper.Transaction.View.{IsHealthy, view, staged_view, base_view, committed_view}
use masterkeeper.Transaction.Spec.{insert_spec, update_spec, upsert_spec, delete_spec, clear_spec}
use masterkeeper.Transaction.Invariant.{IsStaged-empty}
use masterkeeper.Transaction.Deletion.{delete_by_id-Refines}
use masterkeeper.Transaction.Refinement.{IsValid, Refines, insert-Refines, update-Refines}
use masterkeeper.Transaction.Compound.{upsert-Refines, clear-Refines}
use masterkeeper.Transaction.Lookup.{find_by_id-view}
use masterkeeper.Transaction.Calls.{
  Call, insert_call, upsert_call, delete_call, find_call, clear_call, IsOpen, run_calls, run_spec,
  run_calls-view,
}
use masterkeeper.Transaction.KeyedChanges.{HasKeys}
use masterkeeper.Transaction.Keyed.{run_calls-HasKeys}
use masterkeeper.Transaction.Reinsertion.{reinserted, find_by_id-reinserted}

abbrev Row : Type 0
Row = ℕ × ℕ

abbrev same_value : Option ℕ → Option ℕ → Bool
same_value none none = true
same_value (some x) (some y) = nat_eqb x y
same_value _ _ = false

abbrev row_fields : Fields ℕ Row ℕ
row_fields = record {
  primary_key = λ r. some r.0;
  field_value = λ r name. some r.1;
  values_equal = same_value;
}

abbrev pointer : RecordPointer
pointer = record { offset = pos 0; size = pos 2 }

abbrev committed : Committed ℕ Row
committed = record {
  tables = ("users", record { table_name = "users"; index_metadata_list = [] }) ∷ [];
  find = λ name k. if nat_eqb k 1 then at pointer else absent;
  read_from_storage = λ name p. ok (1, 5);
}

committed-IsHealthy : IsHealthy committed
committed-IsHealthy name k = elim (Bool-cases (nat_eqb k 1)) [
  | inl one ↦ inr (pointer, (1, 5), ground (arith, one), refl)
  | inr other ↦ inl (ground (arith, other))
]

abbrev fresh : Transaction ℕ Row ℕ
fresh = new_transaction 3 committed

fresh-IsValid : IsValid fresh
unfolding get
fresh-IsValid name = IsStaged-empty committed name

insert-Refines_example :
    Refines fresh
      (insert row_fields "users" (2, 6) fresh)
      (insert_spec "users" 2 (view fresh) (view fresh "users" 2) (2, 6))
insert-Refines_example =
    insert-Refines row_fields "users" 2 (2, 6) fresh committed-IsHealthy fresh-IsValid refl refl

update-Refines_example :
    Refines fresh
      (update row_fields "users" (1, 6) fresh)
      (update_spec "users" 1 (view fresh) (view fresh "users" 1) (1, 6))
update-Refines_example =
    update-Refines row_fields "users" 1 (1, 6) fresh committed-IsHealthy fresh-IsValid refl refl

delete_by_id-Refines_example :
    Refines fresh
      (delete_by_id row_fields "users" 1 fresh)
      (delete_spec "users" 1 (view fresh) (view fresh "users" 1))
delete_by_id-Refines_example =
    delete_by_id-Refines row_fields "users" 1 fresh committed-IsHealthy fresh-IsValid refl

upsert-Refines_example :
    Refines fresh
      (upsert row_fields "users" (1, 6) fresh)
      (upsert_spec "users" 1 (view fresh) (1, 6))
upsert-Refines_example =
    upsert-Refines row_fields "users" 1 (1, 6) fresh committed-IsHealthy fresh-IsValid refl refl

clear-Refines_example : Refines fresh (clear "users" fresh) (clear_spec "users" (view fresh))
clear-Refines_example = clear-Refines "users" fresh refl fresh-IsValid

find_by_id-view_example :
    ((find_by_id "users" 1 fresh).0 ≡ ok (view fresh "users" 1))
    × ((n : String) (j : ℕ) → view (find_by_id "users" 1 fresh).1 n j ≡ view fresh n j)
unfolding get
find_by_id-view_example =
    find_by_id-view "users" 1 fresh committed-IsHealthy fresh-IsValid refl (inl refl)

find_by_id-reinserted_example :
    (view (reinserted row_fields "users" 1 (1, 9) fresh) "users" 1 ≡ some (1, 9))
    × ((find_by_id "users" 1 (reinserted row_fields "users" 1 (1, 9) fresh)).0 ≡ ok none)
unfolding get staged_view base_view committed_view
find_by_id-reinserted_example =
    find_by_id-reinserted row_fields "users" 1 (1, 9) fresh committed-IsHealthy fresh-IsValid refl
      refl (1, 5) refl refl

abbrev calls : List (Call ℕ Row)
calls =
    upsert_call "users" (1, 6)
    ∷ insert_call "users" (2, 7)
    ∷ find_call "users" 2
    ∷ delete_call "users" 1
    ∷ clear_call "teams"
    ∷ insert_call "users" (2, 8)
    ∷ []

fresh-IsOpen : IsOpen row_fields fresh
fresh-IsOpen = record { healthy = committed-IsHealthy; valid = fresh-IsValid; active = refl }

run_calls-view_example :
    (view (run_calls row_fields calls fresh) ≡ run_spec row_fields calls (view fresh))
    × IsOpen row_fields (run_calls row_fields calls fresh)
    × ((run_calls row_fields calls fresh).committed ≡ fresh.committed)
run_calls-view_example = run_calls-view row_fields calls fresh fresh-IsOpen

fresh-HasKeys : HasKeys row_fields fresh
unfolding get
fresh-HasKeys = record {
  tables_distinct = tt;
  keyed = λ name. record {
    inserts_keyed = tt;
    updates_keyed = tt;
    inserts_distinct = tt;
    updates_distinct = tt;
  };
}

run_calls-HasKeys_example : HasKeys row_fields (run_calls row_fields calls fresh)
run_calls-HasKeys_example = run_calls-HasKeys row_fields calls fresh fresh-HasKeys
