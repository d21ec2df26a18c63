-- ===== src/Transaction/Spec.antt =====
-- What the operations of a table promise, over plain maps: `String → K → Option R` gives for each
-- table the record of each key.
use masterkeeper.Base.{
  String, Bool, true, false, Option, none, some, ◌&&◌, if◌then◌else◌, Comparable, ◌==◌, string_eq,
}
use masterkeeper.Base.Result.{Result, ok, err}
use masterkeeper.Transaction.State.{Error, already_exists, does_not_exist}

-- A view with the entry of one key of one table replaced.
abbrev pub set_view :
    {K R : Type 0} ⦃e : Comparable K⦄
    → (String → K → Option R)
    → String
    → K
    → Option R
    → String
    → K
    → Option R
set_view v name k o n j = if name == n && k == j then o else v n j

-- Each reply is decided by what the map holds under the key.
module _ {K R : Type 0} ⦃e : Comparable K⦄ (name : String) (k : K) (v : String → K → Option R) where
  abbrev pub insert_spec : Option R → R → Result (Error K) (Unit {0}) × (String → K → Option R)
  insert_spec (some old) r = (err (already_exists k name), v)
  insert_spec none r = (ok tt, set_view v name k (some r))

  abbrev pub update_spec : Option R → R → Result (Error K) (Unit {0}) × (String → K → Option R)
  update_spec (some old) r = (ok tt, set_view v name k (some r))
  update_spec none r = (err (does_not_exist k name), v)

  -- An upsert cannot fail for what the map holds: it sets the record.
  abbrev pub upsert_spec : R → Result (Error K) (Unit {0}) × (String → K → Option R)
  upsert_spec r = (ok tt, set_view v name k (some r))

  abbrev pub delete_spec : Option R → Result (Error K) Bool × (String → K → Option R)
  delete_spec (some old) = (ok true, set_view v name k none)
  delete_spec none = (ok false, v)

abbrev pub clear_spec :
    {K R : Type 0}
    → String
    → (String → K → Option R)
    → Result (Error K) (Unit {0}) × (String → K → Option R)
clear_spec name v = (ok tt, λ n j. if name == n then none else v n j)
