-- ===== src/Index/Compare.antt =====
-- The order of the keys in an index: `compareByteKeys` and `compareCompositeKeys` of bplus_tree.go,
-- on `deserializeKey` of index.go, `readValue` of codec.go and `compareValues` of state.go.
-- `compare_byte_keys` runs on fuel and ends in `none` when it has none left; the parts of a composite
-- key are shorter than the key, so that more than the length of the first key is enough.
use masterkeeper.Base.{
  ℕ, zero, suc, ◌+◌, ◌*◌, Bool, true, false, Option, none, some, List, [], ◌∷◌, length, take, drop,
  ltb, nat_eqb, not, ◌&&◌, ◌||◌, if◌then◌else◌,
}
use masterkeeper.Base.Int.{ℤ, pos, negsuc, signed32, signed64}
use masterkeeper.Base.Slice.{slice}
use masterkeeper.Base.Bytes.{from_be}
use masterkeeper.Base.Result.{Result, ok, err, ◌>>=◌}

pub data Order : Type 0 where
  less equal greater : Order

-- What `readValue` returns; a float is its bits. `S` has the structs.
pub data Value (S : Type 0) : Type 0 where
  null : Value S
  text blob : List ℕ → Value S
  time : ℤ → ℤ → Value S
  int32 int64 : ℤ → Value S
  float64 : ℕ → Value S
  boolean : Bool → Value S
  struct : S → Value S

pub data ReadError : Type 0 where
  unexpected_eof invalid_length unknown_tag : ReadError
  -- the panic of `make` with a negative length
  negative_length : ReadError

-- The first `n` bytes, and the rest.
unfoldable pub read_full : ℕ → List ℕ → Result ReadError (List ℕ × List ℕ)
read_full n bytes =
    if ltb (length bytes) n then err unexpected_eof else ok (take n bytes, drop n bytes)

abbrev pub sized : ℤ → List ℕ → Result ReadError (List ℕ × List ℕ)
sized (pos n) rest = read_full n rest
sized (negsuc n) rest = err negative_length

abbrev pub string_sized : ℤ → List ℕ → Result ReadError (List ℕ × List ℕ)
string_sized (pos n) rest =
    if ltb (1024 * 1024 * 16) n then err invalid_length else read_full n rest
string_sized (negsuc n) rest = err invalid_length

unfoldable pub read_string : List ℕ → Result ReadError (List ℕ × List ℕ)
read_string bytes = read_full 4 bytes >>= λ q. string_sized (signed32 (from_be q.0)) q.1

abbrev pub less_int : ℤ → ℤ → Bool
less_int (pos m) (pos n) = ltb m n
less_int (pos m) (negsuc n) = false
less_int (negsuc m) (pos n) = true
less_int (negsuc m) (negsuc n) = ltb n m

-- Two tests, as the code has them before it returns -1, 1 and 0.
abbrev pub order_by : Bool → Bool → Order
order_by true q = less
order_by false true = greater
order_by false false = equal

-- `bytes.Compare` and `<` on strings.
unfoldable pub bytes_compare : List ℕ → List ℕ → Order
bytes_compare [] [] = equal
bytes_compare [] (y ∷ ys) = less
bytes_compare (x ∷ xs) [] = greater
bytes_compare (x ∷ xs) (y ∷ ys) =
    let rest = bytes_compare xs ys in if ltb x y then less else if ltb y x then greater else rest

-- `read_struct` is the branch of `readValue` for structs.
module _ {S : Type 0} (read_struct : List ℕ → Result ReadError S) where
  -- `readValue` behind the tag.
  unfoldable pub read_tagged : ℕ → List ℕ → Result ReadError (Value S)
  read_tagged tag rest =
      if nat_eqb tag 0
      then ok null
      else if nat_eqb tag 1
      then read_string rest >>= (λ q. ok (text q.0))
      else if nat_eqb tag 2
      then read_full 4 rest >>= (λ q. sized (signed32 (from_be q.0)) q.1 >>= (λ p. ok (blob p.0)))
      else if nat_eqb tag 3
      then read_full 8 rest >>= (λ q.
        read_full 4 q.1 >>= (λ p. ok (time (signed64 (from_be q.0)) (signed32 (from_be p.0)))))
      else if nat_eqb tag 4
      then read_full 4 rest >>= (λ q. ok (int32 (signed32 (from_be q.0))))
      else if nat_eqb tag 5
      then read_full 8 rest >>= (λ q. ok (int64 (signed64 (from_be q.0))))
      else if nat_eqb tag 6
      then read_full 8 rest >>= (λ q. ok (float64 (from_be q.0)))
      else if nat_eqb tag 7
      then read_full 1 rest >>= (λ q. ok (boolean (not (nat_eqb (from_be q.0) 0))))
      else if nat_eqb tag 9
      then read_struct rest >>= (λ s. ok (struct s))
      else err unknown_tag

  unfoldable pub deserialize_key : List ℕ → Result ReadError (Value S)
  deserialize_key [] = ok null
  deserialize_key (tag ∷ rest) = read_tagged tag rest

-- Go's conversion of an integer to a float and `<` on floats, `time.Unix` with `Before`, and
-- `fmt.Sprintf` with `%v`.
pub record Formats (S : Type 0) : Type 0 where
  pub float_of : ℤ → ℕ
  pub less_float : ℕ → ℕ → Bool
  pub before : ℤ → ℤ → ℤ → ℤ → Bool
  pub sprint : Value S → List ℕ

abbrev pub as_integer : {S : Type 0} → Value S → Option ℤ
as_integer (int32 z) = some z
as_integer (int64 z) = some z
as_integer _ = none

abbrev both {ℓ} : {A : Type ℓ} → Option A → Option A → Option (A × A)
both (some x) (some y) = some (x, y)
both (some x) none = none
both none o = none

module _ {S : Type 0} (formats : Formats S) where
  open formats use {float_of, less_float, before, sprint}

  abbrev pub as_float_or_integer : Value S → Option ℕ
  as_float_or_integer (float64 x) = some x
  as_float_or_integer (int32 z) = some (float_of z)
  as_float_or_integer (int64 z) = some (float_of z)
  as_float_or_integer _ = none

  -- The switch on the types; what is left goes by its text.
  unfoldable pub compare_typed : Value S → Value S → Order
  compare_typed (text a) (text b) = bytes_compare a b
  compare_typed (boolean a) (boolean b) = order_by (not a && b) (a && not b)
  compare_typed (time s n) (time s' n') = order_by (before s n s' n') (before s' n' s n)
  compare_typed a b = bytes_compare (sprint a) (sprint b)

  unfoldable pub compare_present : Value S → Value S → Order
  compare_present a b = elim (both (as_integer a) (as_integer b)) [
    | some q ↦ order_by (less_int q.0 q.1) (less_int q.1 q.0)
    | none ↦ elim (both (as_float_or_integer a) (as_float_or_integer b)) [
      | some q ↦ order_by (less_float q.0 q.1) (less_float q.1 q.0)
      | none ↦ compare_typed a b
    ]
  ]

  unfoldable pub compare_values : Value S → Value S → Order
  compare_values null null = equal
  compare_values null b = less
  compare_values a null = greater
  compare_values a b = compare_present a b

-- The test that `compareByteKeys` makes of the first byte.
abbrev pub is_composite : List ℕ → Bool
is_composite [] = false
is_composite (x ∷ xs) = (ltb 1 (length (x ∷ xs)) && nat_eqb x 0) || ltb 7 x

-- The secondary and the primary part of a composite key, where it is long enough for them.
abbrev pub secondary_part : List ℕ → Option (List ℕ)
secondary_part key =
    let n = from_be (slice 0 2 key) in
    if ltb (length key) 4
    then none
    else if ltb (length key) (2 + n + 2)
    then none
    else some (slice 2 n key)

abbrev pub primary_part : List ℕ → Option (List ℕ)
primary_part key =
    let off = 2 + from_be (slice 0 2 key) in
    let n = from_be (slice off 2 key) in
    if ltb (length key) (off + 2 + n) then none else some (slice (off + 2) n key)

abbrev pub compare_parts :
    (List ℕ → List ℕ → Option Order) → Option (List ℕ) → Option (List ℕ) → Option (Option Order)
compare_parts compare (some p) (some q) = elim (compare p q) [
  | none ↦ none
  | some o ↦ some (some o)
]
compare_parts compare _ _ = some none

-- `compareCompositeKeys`: inside, `none` for a key that is cut short; outside, for lack of fuel.
unfoldable pub compare_composite_keys :
    (List ℕ → List ℕ → Option Order) → List ℕ → List ℕ → Option (Option Order)
compare_composite_keys compare a b =
    elim (compare_parts compare (secondary_part a) (secondary_part b)) [
      | none ↦ none
      | some none ↦ some none
      | some (some equal) ↦ compare_parts compare (primary_part a) (primary_part b)
      | some (some less) ↦ some (some less)
      | some (some greater) ↦ some (some greater)
    ]

module _ {S : Type 0} (read_struct : List ℕ → Result ReadError S) (formats : Formats S) where
  unfoldable pub compare_decoded : List ℕ → List ℕ → Order
  compare_decoded a b = elim (deserialize_key read_struct a) [
    | err e ↦ bytes_compare a b
    | ok x ↦ elim (deserialize_key read_struct b) [
      | err e ↦ bytes_compare a b
      | ok y ↦ compare_values formats x y
    ]
  ]

  abbrev pub starts : ℕ → List ℕ → Bool
  starts tag [] = false
  starts tag (x ∷ xs) = nat_eqb x tag

  -- The keys that are not compared as composite ones.
  unfoldable pub compare_simple_keys : List ℕ → List ℕ → Order
  compare_simple_keys a b =
      if (starts 1 a && starts 1 b) && (not (ltb (length a) 5) && not (ltb (length b) 5))
      then bytes_compare (drop 5 a) (drop 5 b)
      else if (starts 4 a && starts 4 b) && (nat_eqb (length a) 5 && nat_eqb (length b) 5)
      then order_by (less_int (signed32 (from_be (slice 1 4 a))) (signed32 (from_be (slice 1 4 b))))
          (less_int (signed32 (from_be (slice 1 4 b))) (signed32 (from_be (slice 1 4 a))))
      else if (starts 5 a && starts 5 b) && (nat_eqb (length a) 9 && nat_eqb (length b) 9)
      then order_by (less_int (signed64 (from_be (slice 1 8 a))) (signed64 (from_be (slice 1 8 b))))
          (less_int (signed64 (from_be (slice 1 8 b))) (signed64 (from_be (slice 1 8 a))))
      else compare_decoded a b

  unfoldable pub compare_byte_keys : ℕ → List ℕ → List ℕ → Option Order
  compare_byte_keys zero a b = none
  compare_byte_keys (suc n) [] [] = some equal
  compare_byte_keys (suc n) [] (y ∷ ys) = some less
  compare_byte_keys (suc n) (x ∷ xs) [] = some greater
  compare_byte_keys (suc n) (x ∷ xs) (y ∷ ys) =
      let parts = compare_composite_keys (compare_byte_keys n) (x ∷ xs) (y ∷ ys) in
      if is_composite (x ∷ xs) && is_composite (y ∷ ys)
      then elim parts [
        | none ↦ none
        | some (some o) ↦ some o
        | some none ↦ some (compare_simple_keys (x ∷ xs) (y ∷ ys))
      ]
      else some (compare_simple_keys (x ∷ xs) (y ∷ ys))
