-- ===== src/Commit/Sample.antt =====
-- A database with one table, for the runs of a commit. A record is a key and a value, and its pointer
-- says both.
use masterkeeper.Base.{
  ℕ, String, Bool, true, false, ◌&&◌, Option, none, some, List, [], ◌∷◌, ◌≡◌, ◌≢◌, refl, arith,
  nat_eqb, if◌then◌else◌, ◌==◌, inl, inr, nat_eq, string_eq, bytes_eq, Bool-cases,
}
use masterkeeper.Base.Dict.{Dict, get}
use masterkeeper.Base.Int.{ℤ, pos}
use masterkeeper.Base.Result.{Result, ok, err, ok_inj}
use masterkeeper.Storage.{RecordPointer}
use masterkeeper.Transaction.State.{TableChangeSet, IndexMetadata}
use masterkeeper.Transaction.View.{IsHealthy}
use masterkeeper.Transaction.Calls.{Call, insert_call, update_call}
use masterkeeper.Commit.Maps.{Tree, map_indexes}
use masterkeeper.Commit.Shadow.{Schema}
use masterkeeper.Commit.Apply.{Database, committed_of}
use masterkeeper.Commit.Entries.{IsSchema}

abbrev pub Row : Type 0
Row = ℕ × ℕ

abbrev pub by_value : IndexMetadata
by_value = record { index_name = "by_value"; field_name = "value"; unique = true; ordered = false }

abbrev pub row_schema : Schema ℕ Row
row_schema = record {
  primary_key = λ r. some r.0;
  field_value = λ r name. some r.1;
  canonicalize_key = λ v. v;
  serialize_key = λ v. ok (v ∷ []);
  extract_index_metadata_list = λ name r. by_value ∷ [];
}

pub not_primary : by_value.index_name ≢ "primary"
not_primary p = string_apart ((string_eq.equals_iff "by_value" "primary").1 p)
  where
    string_apart : false ≡ true → ⊥
    string_apart p = cc

pub row_schema-IsSchema : IsSchema row_schema
row_schema-IsSchema = record { secondary = λ name r. (not_primary, tt) }

-- Keys that serialize alike are the same.
pub same_row_key : (j k : ℕ) → row_schema.serialize_key j ≡ row_schema.serialize_key k → j ≡ k
same_row_key j k p = same_key (ok_inj p)
  where
    same_key : j ∷ [] ≡ k ∷ [] → j ≡ k
    same_key p = cc

abbrev pub pointer : ℕ → ℕ → RecordPointer
pointer k v = record { offset = pos k; size = pos v }

abbrev pub read_row : String → RecordPointer → Result ℕ Row
read_row name p = row_at p.offset p.size
  where
    row_at : ℤ → ℤ → Result ℕ Row
    row_at (pos k) (pos v) = ok (k, v)
    row_at _ _ = err 0

abbrev pub users_tree : Tree
users_tree n k =
    if (n == "primary") && (k == 1 ∷ [])
    then some (pointer 1 5)
    else if (n == "by_value") && (k == 5 ∷ [])
    then some (pointer 1 5)
    else none

-- The user 1, with the value 5.
abbrev pub database : Database Tree
database = record {
  generation = 0;
  tables = ("users", record { table_name = "users"; index_metadata_list = by_value ∷ [] }) ∷ [];
  trees = ("users", users_tree) ∷ [];
}

pub database-IsHealthy : IsHealthy (committed_of row_schema map_indexes read_row database)
unfolding committed_of get
database-IsHealthy name k = elim (Bool-cases ("users" == name)) [
  | inl same ↦ elim (Bool-cases (k == 1)) [
    | inl one ↦ inr (pointer 1 5, (1, 5), ground (arith, same, one), refl)
    | inr other ↦ inl (ground (arith, same, other))
  ]
  | inr other ↦ inl (ground (arith, other))
]

-- The value of the user 1 is changed, and a user 2 comes.
abbrev pub calls : List (Call ℕ Row)
calls = update_call "users" (1, 7) ∷ insert_call "users" (2, 6) ∷ []

abbrev pub pointers : Dict String (List RecordPointer)
pointers = ("users", pointer 2 6 ∷ pointer 1 7 ∷ []) ∷ []

abbrev pub same_value : Option ℕ → Option ℕ → Bool
same_value none none = true
same_value (some x) (some y) = nat_eqb x y
same_value _ _ = false

abbrev pub changed : Dict String (TableChangeSet ℕ Row)
changed =
    (
      "users",
      record {
        cleared = false;
        inserts = (2, (2, 6)) ∷ [];
        updates = (1, (1, 7)) ∷ [];
        deletes = [];
      },
    )
    ∷ []
