-- ===== src/Commit/Maps.antt =====
-- index.go: an index as the commit sees it, a map from the name of an index and the bytes of a key to
-- a pointer. It states what bplus_tree.go is for, and stands for the tree where the keys in it are told
-- apart by `compareByteKeys`, which does not tell apart all of them (Index/Collision.antt).
use masterkeeper.Base.{
  String, Bool, true, false, ◌&&◌, Option, none, some, List, ◌≡◌, refl, sym, ap, ◌∙◌, ℕ,
  if◌then◌else◌, ◌==◌, string_eq, bytes_eq,
}
use masterkeeper.Base.Result.{Result, ok, ok_inj}
use masterkeeper.Storage.{RecordPointer}
use masterkeeper.Commit.Indexes.{Indexes, IsIndexes}
use masterkeeper.Commit.Success.{IsReliable}

-- What is found under the name of an index and a key.
abbrev pub Tree : Type 0
Tree = String → List ℕ → Option RecordPointer

abbrev pub map_indexes : Indexes Tree
map_indexes = record {
  fresh = λ n k. none;
  find = λ t n k. ok (t n k);
  insert = λ t n k p gen. ok (λ m j. if (n == m) && (k == j) then some p else t m j);
  delete = λ t n k gen. ok (λ m j. if (n == m) && (k == j) then none else t m j);
  commit = λ t gen. ok t;
}

found_if :
    (b : Bool) (o q : Option RecordPointer)
    → ◌≡◌ {A = Result ℕ (Option RecordPointer)} (ok (if b then o else q)) (if b then ok o else ok q)
found_if true o q = refl
found_if false o q = refl

pub map_indexes-IsIndexes : IsIndexes map_indexes
map_indexes-IsIndexes = record {
  find-fresh = λ n k. refl;
  find-insert = λ t u n m k j p g eq.
      ap (λ f. ok (f m j)) (sym (ok_inj eq)) ∙ found_if ((n == m) && (k == j)) (some p) (t m j);
  find-delete = λ t u n m k j g eq.
      ap (λ f. ok (f m j)) (sym (ok_inj eq)) ∙ found_if ((n == m) && (k == j)) none (t m j);
  find-commit = λ t u m j g eq. ap (λ f. ok (f m j)) (sym (ok_inj eq));
}

pub map_indexes-IsReliable : IsReliable map_indexes
map_indexes-IsReliable = record {
  inserts = λ t n k p g. (_, refl);
  deletes = λ t n k g. (_, refl);
  commits = λ t g. (t, refl);
}
