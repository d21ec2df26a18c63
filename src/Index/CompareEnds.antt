-- ===== src/Index/CompareEnds.antt =====
-- The fuel of `compare_byte_keys`.
use masterkeeper.Base.{
  ℕ, zero, suc, ◌+◌, ◌≤◌, ◌<◌, Bool, true, false, Option, none, some, List, [], ◌∷◌, ◌≡◌, refl, ap,
  length, ltb, arith, ◌&&◌, Bool-cases, inl, inr, length-take, length-drop, drop, if◌then◌else◌,
}
use masterkeeper.Base.Slice.{slice}
use masterkeeper.Base.Bytes.{from_be}
use masterkeeper.Base.Result.{Result}
use masterkeeper.Index.Compare.{
  Order, equal, less, greater, ReadError, Formats, is_composite, secondary_part, primary_part,
  compare_parts, compare_composite_keys, compare_simple_keys, compare_byte_keys,
}

length-slice_le :
    (off n : ℕ) (xs : List ℕ) → off ≤ length xs → length (slice off n xs) + off ≤ length xs
length-slice_le off n xs inside = omega (arith, length-take n (drop off xs), length-drop off xs)

secondary_part-shorter : (a p : List ℕ) → secondary_part a ≡ some p → length p < length a
secondary_part-shorter a p eq = elim (Bool-cases (ltb (length a) 4)) [
  | inl short ↦ absurd (ground (arith, short, eq))
  | inr long ↦ elim (Bool-cases (ltb (length a) (2 + from_be (slice 0 2 a) + 2))) [
    | inl cut ↦ absurd (ground (arith, long, cut, eq))
    | inr whole ↦
        let part : slice 2 (from_be (slice 0 2 a)) a ≡ p = ground (arith, long, whole, eq) in
        ground (arith, ap length part, length-slice_le 2 (from_be (slice 0 2 a)) a, long)
  ]
]

primary_part-shorter : (a p : List ℕ) → primary_part a ≡ some p → length p < length a
primary_part-shorter a p eq =
    elim (Bool-cases (
      ltb (length a)
        (2 + from_be (slice 0 2 a) + 2 + from_be (slice (2 + from_be (slice 0 2 a)) 2 a)))) [
          | inl cut ↦ absurd (ground (arith, cut, eq))
          | inr whole ↦
              let off = 2 + from_be (slice 0 2 a) + 2 in
              let n = from_be (slice (2 + from_be (slice 0 2 a)) 2 a) in
              let part : slice off n a ≡ p = ground (arith, whole, eq) in
              ground (arith, ap length part, length-slice_le off n a, whole)
        ]

compare_parts-ends :
    (f : List ℕ → List ℕ → Option Order) (p q : Option (List ℕ))
    → ((x y : List ℕ) → p ≡ some x → (o : Order) × (f x y ≡ some o))
    → (z : Option Order) × (compare_parts f p q ≡ some z)
compare_parts-ends f none q h = (none, refl)
compare_parts-ends f (some x) none h = (none, refl)
compare_parts-ends f (some x) (some y) h = let (o, eq) = h x y refl in (some o, ground (arith, eq))

module _ {S : Type 0} (read_struct : List ℕ → Result ReadError S) (formats : Formats S) where
  compare_composite_keys-ends :
      (f : List ℕ → List ℕ → Option Order) (a b : List ℕ)
      → ((x y : List ℕ) → length x < length a → (o : Order) × (f x y ≡ some o))
      → (z : Option Order) × (compare_composite_keys f a b ≡ some z)
  unfolding compare_composite_keys
  compare_composite_keys-ends f a b h =
      let (z, first) =
        compare_parts-ends f (secondary_part a) (secondary_part b)
          (λ x y p. h x y (secondary_part-shorter a x p)) in
      let (w, second) =
        compare_parts-ends f (primary_part a) (primary_part b)
          (λ x y p. h x y (primary_part-shorter a x p)) in
      by_first z first w second
    where
      by_first :
          (z : Option Order)
          → compare_parts f (secondary_part a) (secondary_part b) ≡ some z
          → (w : Option Order) → compare_parts f (primary_part a) (primary_part b) ≡ some w
          → (v : Option Order) × (compare_composite_keys f a b ≡ some v)
      by_first none p w q = (none, ground (arith, p))
      by_first (some equal) p w q = (w, ground (arith, p, q))
      by_first (some less) p w q = (some less, ground (arith, p))
      by_first (some greater) p w q = (some greater, ground (arith, p))

  -- With more fuel than the first key has bytes, the comparison comes to an answer.
  pub compare_byte_keys-ends :
      (n : ℕ) (a b : List ℕ)
      → length a < n
      → (o : Order) × (compare_byte_keys read_struct formats n a b ≡ some o)
  unfolding compare_byte_keys
  compare_byte_keys-ends zero a b h = absurd (omega (arith, h))
  compare_byte_keys-ends (suc n) [] [] h = (equal, refl)
  compare_byte_keys-ends (suc n) [] (y ∷ ys) h = (less, refl)
  compare_byte_keys-ends (suc n) (x ∷ xs) [] h = (greater, refl)
  compare_byte_keys-ends (suc n) (x ∷ xs) (y ∷ ys) h =
      let (z, ended) =
        compare_composite_keys-ends (compare_byte_keys read_struct formats n) (x ∷ xs) (y ∷ ys)
          (λ p q shorter. compare_byte_keys-ends n p q (omega (arith, h, shorter))) in
      by_test (is_composite (x ∷ xs) && is_composite (y ∷ ys)) z ended
    where
      by_test :
          (t : Bool) (z : Option Order)
          → compare_composite_keys (compare_byte_keys read_struct formats n) (x ∷ xs) (y ∷ ys)
            ≡ some z
          → (o : Order) × ((if t
                then elim (compare_composite_keys
                      (compare_byte_keys read_struct formats n)
                      (x ∷ xs)
                      (y ∷ ys))
                    as (λ r. Option Order) [
                      | none ↦ none
                      | some (some o) ↦ some o
                      | some none ↦ some (compare_simple_keys read_struct formats (x ∷ xs) (y ∷ ys))
                    ]
                else some (compare_simple_keys read_struct formats (x ∷ xs) (y ∷ ys)))
              ≡ some o)
      by_test true none p = (compare_simple_keys read_struct formats (x ∷ xs) (y ∷ ys), rw p refl)
      by_test true (some o) p = (o, rw p refl)
      by_test false z p = (compare_simple_keys read_struct formats (x ∷ xs) (y ∷ ys), refl)
