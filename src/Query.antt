-- ===== src/Query.antt =====
-- query.go: the conditions of a query, and the part of `List` behind the collection of the records:
-- filter, duplicates, order and page.
pub mod Page
pub mod Conditions
pub mod Filter
mod Tests
use masterkeeper.Base.{
  ℕ, zero, suc, ◌+◌, ◌-◌, ◌^◌, String, Bool, true, false, not, ◌&&◌, ◌||◌, Option, none, some, List,
  [], ◌∷◌, ◌++◌, length, get_elem?, if◌then◌else◌, ltb, Comparable, ◌==◌,
}
use masterkeeper.Base.Int.{ℤ, pos, negsuc, signed64}

-- What a query uses of a record type: `getPrimaryKey`, `getFieldValue`, `valuesEqual` and
-- `compareValues`, where `none` is Go's nil.
pub record Fields (K R F : Type 0) : Type 0 where
  pub primary_key : R → Option K
  pub field_value : R → String → Option F
  pub values_equal : Option F → Option F → Bool
  pub compare_values : Option F → Option F → ℤ

-- The functions that make a condition, each with its field and its value.
pub data Condition (F : Type 0) : Type 0 where
  equal not_equal greater_than greater_than_or_equal less_than less_than_or_equal :
      String → Option F → Condition F

pub record SortOrder : Type 0 where
  pub field_name : String
  pub ascending : Bool

-- `limit` is negative where there is none.
pub record Query (F : Type 0) : Type 0 where
  pub conditions : List (Condition F)
  pub sort_order : Option SortOrder
  pub limit : ℤ
  pub offset : ℤ

abbrev pub new_query : {F : Type 0} → Query F
new_query = record { conditions = []; sort_order = none; limit = negsuc 0; offset = pos 0 }

module _ {F : Type 0} where
  unfoldable pub where_ : Option (Condition F) → Query F → Query F
  where_ none q = q
  where_ (some c) q = record q { conditions = q.conditions ++ c ∷ [] }

  unfoldable pub order_by : SortOrder → Query F → Query F
  order_by order q = record q { sort_order = some order }

  unfoldable pub set_limit : ℤ → Query F → Query F
  set_limit limit q = record q { limit = limit }

  unfoldable pub set_offset : ℤ → Query F → Query F
  set_offset (negsuc n) q = record q { offset = pos 0 }
  set_offset (pos n) q = record q { offset = pos n }

-- The signs of `compareValues`.
abbrev pub is_positive : ℤ → Bool
is_positive (pos zero) = false
is_positive (pos (suc n)) = true
is_positive (negsuc n) = false

abbrev pub is_negative : ℤ → Bool
is_negative (pos n) = false
is_negative (negsuc n) = true

module _ {K R F : Type 0} (fields : Fields K R F) where
  open fields use {primary_key, field_value, values_equal, compare_values}

  unfoldable pub test : Condition F → R → Bool
  test (equal name v) r = values_equal (field_value r name) v
  test (not_equal name v) r = not (values_equal (field_value r name) v)
  test (greater_than name v) r = is_positive (compare_values (field_value r name) v)
  test (greater_than_or_equal name v) r = not (is_negative (compare_values (field_value r name) v))
  test (less_than name v) r = is_negative (compare_values (field_value r name) v)
  test (less_than_or_equal name v) r = not (is_positive (compare_values (field_value r name) v))

  -- The loop over the conditions, which stops at the first that fails.
  unfoldable pub matches : List (Condition F) → R → Bool
  matches [] r = true
  matches (c ∷ cs) r = let rest = matches cs r in if test c r then rest else false

  -- The comparison that the records are sorted with.
  unfoldable pub before : SortOrder → R → R → Bool
  before order left right =
      let comparison =
        compare_values (field_value left order.field_name) (field_value right order.field_name) in
      if order.ascending then is_negative comparison else is_positive comparison

module _ {K : Type 0} ⦃e : Comparable K⦄ where
  -- Go's `==` on two keys, either of which may be nil.
  abbrev pub same_key : Option K → Option K → Bool
  same_key none none = true
  same_key (some j) (some k) = j == k
  same_key _ _ = false

  module _ {R F : Type 0} (fields : Fields K R F) where
    -- The inner loop over the records taken so far.
    unfoldable pub is_duplicate : Option K → List R → Bool
    is_duplicate k [] = false
    is_duplicate k (r ∷ rs) =
        let rest = is_duplicate k rs in if same_key (fields.primary_key r) k then true else rest

    -- The loop that fills `filtered`.
    unfoldable pub filter_records : List (Condition F) → List R → List R → List R
    filter_records cs filtered [] = filtered
    filter_records cs filtered (r ∷ rs) =
        filter_records cs
          (if matches fields cs r
            then (if is_duplicate (fields.primary_key r) filtered
                then filtered
                else filtered ++ r ∷ [])
            else filtered)
          rs

-- The loop from one index to another.
unfoldable pub collect {ℓ} : {A : Type ℓ} → ℕ → ℕ → List A → List A
collect zero i xs = []
collect (suc n) i xs =
    let rest = collect n (suc i) xs in elim (get_elem? xs i) [ none ↦ [] | some x ↦ x ∷ rest ]

-- The page of the filtered records. `fromIndex + limit` is an `int` of 64 bits.
unfoldable pub page {ℓ} : {A : Type ℓ} → ℕ → ℤ → List A → List A
page offset limit xs =
    let from = if ltb (length xs) offset then length xs else offset in
    elim limit [
      | negsuc n ↦ collect (length xs - from) from xs
      | pos l ↦ elim (signed64 (from + l)) [
        | negsuc n ↦ []
        | pos to ↦
            if ltb (length xs) to
            then collect (length xs - from) from xs
            else collect (to - from) from xs
      ]
    ]

abbrev pub offset_of : ℤ → ℕ
offset_of (pos n) = n
offset_of (negsuc n) = 0

-- `List` behind the collection of the records; `sort` is `sort.Slice` with a comparison.
unfoldable pub list_records :
    {K R F : Type 0}
    → ⦃e : Comparable K⦄ → Fields K R F
    → ((R → R → Bool) → List R → List R)
    → Query F
    → List R
    → List R
list_records {K} {R} fields sort q records =
    let filtered = filter_records fields q.conditions [] records in
    let sorted : List R = elim q.sort_order [
      | none ↦ filtered
      | some order ↦ sort (before fields order) filtered
    ] in
    page (offset_of q.offset) q.limit sorted
