-- ===== src/Commit/Indexes.antt =====
-- index.go and bplus_tree.go: the indexes of a table as an interface. A tree holds all the named
-- indexes of its table; `find`, `insert` and `delete` are `FindNamed`, `InsertNamedNoCommit` and
-- `DeleteNamedNoCommit`, `commit` is `writeNewStateLocked`. `FindNamed` does not look at the
-- generation that it is given.
use masterkeeper.Base.{
  ℕ, String, Option, none, some, List, ◌≡◌, ◌&&◌, if◌then◌else◌, ◌==◌, string_eq, bytes_eq,
}
use masterkeeper.Base.Result.{Result, ok}
use masterkeeper.Storage.{RecordPointer}

-- An error is a number.
pub record Indexes (T : Type 0) : Type 0 where
  -- the tree of an empty file
  pub fresh : T
  pub find : T → String → List ℕ → Result ℕ (Option RecordPointer)
  pub insert : T → String → List ℕ → RecordPointer → ℕ → Result ℕ T
  pub delete : T → String → List ℕ → ℕ → Result ℕ T
  pub commit : T → ℕ → Result ℕ T

-- What is asked of an operation that reports no error, for indexes that are maps.
pub record IsIndexes {T : Type 0} (x : Indexes T) : Type 0 where
  pub find-fresh : (n : String) (k : List ℕ) → x.find x.fresh n k ≡ ok none
  pub find-insert :
      (t u : T) (n m : String) (k j : List ℕ) (p : RecordPointer) (g : ℕ)
      → x.insert t n k p g ≡ ok u
      → x.find u m j ≡ (if (n == m) && (k == j) then ok (some p) else x.find t m j)
  pub find-delete :
      (t u : T) (n m : String) (k j : List ℕ) (g : ℕ)
      → x.delete t n k g ≡ ok u
      → x.find u m j ≡ (if (n == m) && (k == j) then ok none else x.find t m j)
  pub find-commit :
      (t u : T) (m : String) (j : List ℕ) (g : ℕ)
      → x.commit t g ≡ ok u
      → x.find u m j ≡ x.find t m j
