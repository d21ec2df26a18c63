-- ===== src/Index/Collision.antt =====
-- Composite keys with a long secondary part, as the order of the keys sees them.
use masterkeeper.Base.{
  ℕ, suc, ◌^◌, ◌%◌, ◌/◌, ◌≤◌, false, some, List, [], ◌∷◌, ◌++◌, ◌≡◌, refl, ap, ◌∙◌, length, ltb,
  arith,
}
use mathlib.Core.Path.{ap₂}
use masterkeeper.Base.Int.{ℤ, pos, negsuc, signed32}
use masterkeeper.Base.Bytes.{be, from_be}
use masterkeeper.Base.Result.{Result, ok}
use masterkeeper.Index.Key.{with_length}
use masterkeeper.Index.Compare.{
  equal, ReadError, Formats, int32, deserialize_key, read_tagged, read_full, compare_values,
  compare_present, compare_decoded, compare_simple_keys, compare_byte_keys, less_int,
}

-- `serializeKey` on a string.
unfoldable pub text_key : List ℕ → List ℕ
text_key bytes = 1 ∷ (be 4 (length bytes % 2 ^ 32) ++ bytes)

less_int-irreflexive : (z : ℤ) → less_int z z ≡ false
less_int-irreflexive (pos n) = ground arith
less_int-irreflexive (negsuc n) = ground arith

module _ {S : Type 0} (read_struct : List ℕ → Result ReadError S) (formats : Formats S) where
  room : (n : ℕ) → ltb (suc (suc (suc (suc n)))) 4 ≡ false
  room n = ground arith

  -- Whatever follows the four bytes is not looked at.
  decoded :
      (a b c d : ℕ) (xs : List ℕ)
      → deserialize_key read_struct (4 ∷ a ∷ b ∷ c ∷ d ∷ xs)
        ≡ ok (int32 (signed32 (from_be (a ∷ b ∷ c ∷ d ∷ []))))
  unfolding deserialize_key read_tagged read_full
  decoded a b c d xs = rw (room (length xs)) refl

  -- Two keys that start with the tag of an int32 and have the same four bytes behind it.
  same_word :
      (a b c d : ℕ) (xs ys : List ℕ)
      → compare_decoded read_struct formats (4 ∷ a ∷ b ∷ c ∷ d ∷ xs) (4 ∷ a ∷ b ∷ c ∷ d ∷ ys)
        ≡ equal
  unfolding compare_decoded compare_values compare_present
  same_word a b c d xs ys = ground (
    arith,
    decoded a b c d xs,
    decoded a b c d ys,
    less_int-irreflexive (signed32 (from_be (a ∷ b ∷ c ∷ d ∷ []))),
  )

  same_start :
      (n a b c d x y : ℕ) (xs ys : List ℕ)
      → compare_byte_keys read_struct formats
          (suc n)
          (4 ∷ a ∷ b ∷ c ∷ d ∷ x ∷ xs)
          (4 ∷ a ∷ b ∷ c ∷ d ∷ y ∷ ys)
        ≡ some equal
  unfolding compare_byte_keys compare_simple_keys
  same_start n a b c d x y xs ys = ground (arith, same_word a b c d (x ∷ xs) (y ∷ ys))

-- The bytes of a key with a string of `n` bytes as its secondary part, up to the string.
abbrev key_head : ℕ → List ℕ → List ℕ
key_head n xs =
    (suc (suc (suc (suc (suc n)))) % 65536 / 256 % 256)
    ∷ (suc (suc (suc (suc (suc n)))) % 65536 % 256)
    ∷ 1
    ∷ (n % 4294967296 / 256 / 256 / 256 % 256)
    ∷ (n % 4294967296 / 256 / 256 % 256)
    ∷ (n % 4294967296 / 256 % 256)
    ∷ (n % 4294967296 % 256)
    ∷ xs

key_start :
    (bytes rest : List ℕ)
    → with_length (text_key bytes) ++ rest ≡ key_head (length bytes) (bytes ++ rest)
unfolding be text_key
key_start bytes rest = refl

first_byte : (n : ℕ) → 1019 ≤ n → n ≤ 1274 → suc (suc (suc (suc (suc n)))) % 65536 / 256 % 256 ≡ 4
first_byte n low high = omega arith

-- Behind the first byte, which is 4.
abbrev key_tail : ℕ → List ℕ → List ℕ
key_tail n xs =
    (suc (suc (suc (suc (suc n)))) % 65536 % 256)
    ∷ 1
    ∷ (n % 4294967296 / 256 / 256 / 256 % 256)
    ∷ (n % 4294967296 / 256 / 256 % 256)
    ∷ (n % 4294967296 / 256 % 256)
    ∷ (n % 4294967296 % 256)
    ∷ xs

whole_key :
    (bytes rest : List ℕ) (n : ℕ)
    → length bytes ≡ n
    → 1019 ≤ n
    → n ≤ 1274
    → with_length (text_key bytes) ++ rest ≡ 4 ∷ key_tail n (bytes ++ rest)
whole_key bytes rest n len low high =
    key_start bytes rest
    ∙ ap (λ k. key_head k (bytes ++ rest)) len
    ∙ ap (λ w. w ∷ key_tail n (bytes ++ rest)) (first_byte n low high)

module _ {S : Type 0} (read_struct : List ℕ → Result ReadError S) (formats : Formats S) where
  -- In an index that is not unique, take two entries for string values of the same length, between 1019
  -- and 1274 bytes. `compareByteKeys` holds their keys for equal, whatever the strings and the primary
  -- keys are, at any fuel but none.
  pub compare_byte_keys-long :
      (n : ℕ) (s t p q : List ℕ)
      → length t ≡ length s
      → 1019 ≤ length s
      → length s ≤ 1274
      → compare_byte_keys read_struct formats
          (suc n)
          (with_length (text_key s) ++ p)
          (with_length (text_key t) ++ q)
        ≡ some equal
  compare_byte_keys-long n s t p q same low high =
      ap₂ (compare_byte_keys read_struct formats (suc n)) (whole_key s p (length s) refl low high)
        (whole_key t q (length s) same low high)
      ∙ same_start read_struct formats n _ _ _ _ _ _ _ _
