-- ===== src/Query/Conditions.antt =====
-- The conditions of a query by the values that they compare, without their tests.
use masterkeeper.Base.{
  ℕ, zero, suc, Bool, true, false, not, List, [], ◌∷◌, ◌≡◌, refl, ◌⊎◌, inl, inr, arith, All,
  Bool-cases,
}
use masterkeeper.Base.Int.{ℤ, pos, negsuc}
use masterkeeper.Query.{
  Fields, Condition, matches, test, equal, not_equal, greater_than, greater_than_or_equal,
  less_than, less_than_or_equal, is_positive, is_negative,
}

abbrev pub IsPositive : ℤ → Type 0
IsPositive z = (n : ℕ) × (z ≡ pos (suc n))

abbrev pub IsNegative : ℤ → Type 0
IsNegative z = (n : ℕ) × (z ≡ negsuc n)

-- What a condition says of a record.
abbrev pub Satisfies : {K R F : Type 0} → Fields K R F → Condition F → R → Type 0
Satisfies fields (equal name v) r = fields.values_equal (fields.field_value r name) v ≡ true
Satisfies fields (not_equal name v) r = fields.values_equal (fields.field_value r name) v ≡ false
Satisfies fields (greater_than name v) r =
    IsPositive (fields.compare_values (fields.field_value r name) v)
Satisfies fields (greater_than_or_equal name v) r =
    (n : ℕ) × (fields.compare_values (fields.field_value r name) v ≡ pos n)
Satisfies fields (less_than name v) r =
    IsNegative (fields.compare_values (fields.field_value r name) v)
Satisfies fields (less_than_or_equal name v) r =
    (fields.compare_values (fields.field_value r name) v ≡ pos 0)
    ⊎ IsNegative (fields.compare_values (fields.field_value r name) v)

positive : (z : ℤ) → is_positive z ≡ true → IsPositive z
positive (pos zero) h = absurd (cc)
positive (pos (suc n)) h = (n, refl)
positive (negsuc n) h = absurd (cc)

not_positive : (z : ℤ) → not (is_positive z) ≡ true → (z ≡ pos 0) ⊎ IsNegative z
not_positive (pos zero) h = inl refl
not_positive (pos (suc n)) h = absurd (cc)
not_positive (negsuc n) h = inr (n, refl)

negative : (z : ℤ) → is_negative z ≡ true → IsNegative z
negative (pos n) h = absurd (cc)
negative (negsuc n) h = (n, refl)

not_negative : (z : ℤ) → not (is_negative z) ≡ true → (n : ℕ) × (z ≡ pos n)
not_negative (pos n) h = (n, refl)
not_negative (negsuc n) h = absurd (cc)

negated : (b : Bool) → not b ≡ true → b ≡ false
negated true h = absurd (cc)
negated false h = refl

test-Satisfies :
    {K R F : Type 0}
    → (fields : Fields K R F) (c : Condition F) (r : R) → test fields c r ≡ true
    → Satisfies fields c r
unfolding test
test-Satisfies fields (equal name v) r h = h
test-Satisfies fields (not_equal name v) r h = negated _ h
test-Satisfies fields (greater_than name v) r h = positive _ h
test-Satisfies fields (greater_than_or_equal name v) r h = not_negative _ h
test-Satisfies fields (less_than name v) r h = negative _ h
test-Satisfies fields (less_than_or_equal name v) r h = not_positive _ h

pub matches-Satisfies :
    {K R F : Type 0}
    → (fields : Fields K R F) (cs : List (Condition F)) (r : R) → matches fields cs r ≡ true
    → All (λ c. Satisfies fields c r) cs
unfolding matches
matches-Satisfies fields [] r h = tt
matches-Satisfies fields (c ∷ cs) r h = elim (Bool-cases (test fields c r)) [
  | inl meets ↦
      (test-Satisfies fields c r meets, matches-Satisfies fields cs r (ground (arith, meets, h)))
  | inr fails ↦ absurd (ground (arith, fails, h))
]

Satisfies-test :
    {K R F : Type 0}
    → (fields : Fields K R F) (c : Condition F) (r : R) → Satisfies fields c r
    → test fields c r ≡ true
unfolding test
Satisfies-test fields (equal name v) r h = h
Satisfies-test fields (not_equal name v) r h = rw h refl
Satisfies-test fields (greater_than name v) r (n, h) = rw h refl
Satisfies-test fields (greater_than_or_equal name v) r (n, h) = rw h refl
Satisfies-test fields (less_than name v) r (n, h) = rw h refl
Satisfies-test fields (less_than_or_equal name v) r (inl h) = rw h refl
Satisfies-test fields (less_than_or_equal name v) r (inr (n, h)) = rw h refl

pub Satisfies-matches :
    {K R F : Type 0}
    → (fields : Fields K R F) (cs : List (Condition F)) (r : R) → All (λ c. Satisfies fields c r) cs
    → matches fields cs r ≡ true
unfolding matches
Satisfies-matches fields [] r h = refl
Satisfies-matches fields (c ∷ cs) r h =
    rw (Satisfies-test fields c r h.0) (Satisfies-matches fields cs r h.1)
