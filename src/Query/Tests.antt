-- ===== src/Query/Tests.antt =====
-- Runs of a query on records that are a key and a value.
use masterkeeper.Base.{
  ℕ, Bool, true, false, Option, none, some, List, [], ◌∷◌, ◌≡◌, arith, nat_eqb, ltb, if◌then◌else◌,
  nat_eq,
}
use masterkeeper.Base.Int.{ℤ, pos, negsuc}
use masterkeeper.Query.{Fields, Condition, greater_than, filter_records, is_duplicate, page}
use masterkeeper.Query.Page.{page-take, page-overflow}
use masterkeeper.Query.Filter.{
  matched, IsFiltered, IsCovered, is_duplicate-filter_records, filter_records-IsFiltered,
}

abbrev Row : Type 0
Row = ℕ × ℕ

abbrev same_value : Option ℕ → Option ℕ → Bool
same_value none none = true
same_value (some x) (some y) = nat_eqb x y
same_value _ _ = false

abbrev order_of : Option ℕ → Option ℕ → ℤ
order_of (some x) (some y) = if ltb x y then negsuc 0 else if ltb y x then pos 1 else pos 0
order_of _ _ = pos 0

abbrev row_fields : Fields ℕ Row ℕ
row_fields = record {
  primary_key = λ r. some r.0;
  field_value = λ r name. some r.1;
  values_equal = same_value;
  compare_values = order_of;
}

abbrev rows : List Row
rows = (1, 5) ∷ (2, 3) ∷ (1, 5) ∷ (3, 9) ∷ []

abbrev above_four : List (Condition ℕ)
above_four = greater_than "value" (some 4) ∷ []

is_duplicate-filter_records_example :
    is_duplicate row_fields (some 3) (filter_records row_fields above_four [] rows)
    ≡ matched row_fields above_four (some 3) rows
is_duplicate-filter_records_example =
    is_duplicate-filter_records row_fields above_four rows (some 3)

filter_records-IsFiltered_example :
    IsFiltered row_fields above_four (filter_records row_fields above_four [] rows)
    × IsCovered row_fields above_four rows (filter_records row_fields above_four [] rows)
filter_records-IsFiltered_example = filter_records-IsFiltered row_fields above_four rows

page-take_example : page 1 (pos 2) rows ≡ (2, 3) ∷ (1, 5) ∷ []
page-take_example = page-take 1 2 rows (omega arith)

page-overflow_example : page 1 (pos 9223372036854775807) rows ≡ []
page-overflow_example =
    page-overflow 1 9223372036854775807 rows (omega arith) (omega arith) (omega arith) (omega arith)
