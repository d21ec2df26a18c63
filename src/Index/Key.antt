-- ===== src/Index/Key.antt =====
-- codec.go: the composite keys of an index that is not unique.
use masterkeeper.Base.{
  ℕ, ◌+◌, ◌%◌, ◌^◌, ◌<◌, false, List, [], ◌++◌, ◌≡◌, refl, sym, ap, ◌∙◌, length, ltb, if◌then◌else◌,
  arith, length-append,
}
use mathlib.Core.List.{append-nil, append_assoc}
use masterkeeper.Base.Slice.{slice, slice_middle}
use masterkeeper.Base.Bytes.{be, from_be, from_be-be, length-be}
use masterkeeper.Base.Result.{Result, ok, err}

pub data Error : Type 0 where
  too_short corrupt : Error
  key_error : ℕ → Error

abbrev pub with_length : List ℕ → List ℕ
with_length bytes = be 2 (length bytes % 2 ^ 16) ++ bytes

-- `serialize_key` and `deserialize_key` are those of index.go, on the values of keys.
unfoldable pub serialize_composite_key :
    {V : Type 0} → (V → Result Error (List ℕ)) → V → V → Result Error (List ℕ)
serialize_composite_key serialize_key secondary primary = elim (serialize_key secondary) [
  | err x ↦ err x
  | ok s ↦ elim (serialize_key primary) [
    | err x ↦ err x
    | ok p ↦ ok (with_length s ++ with_length p)
  ]
]

module _ {V : Type 0} (deserialize_key : List ℕ → Result Error V) where
  -- The values behind the two byte strings.
  abbrev both : List ℕ → List ℕ → Result Error (V × V)
  both s p = elim (deserialize_key s) [
    | err x ↦ err x
    | ok a ↦ elim (deserialize_key p) [ err x ↦ err x | ok b ↦ ok (a, b) ]
  ]

  unfoldable pub deserialize_composite_key : List ℕ → Result Error (V × V)
  deserialize_composite_key buffer =
      let secondary_length = from_be (slice 0 2 buffer) in
      let off = 2 + secondary_length in
      let primary_length = from_be (slice off 2 buffer) in
      if ltb (length buffer) 4
      then err too_short
      else if ltb (length buffer) (off + 2)
      then err corrupt
      else if ltb (length buffer) (off + 2 + primary_length)
      then err corrupt
      else both (slice 2 secondary_length buffer) (slice (off + 2) primary_length buffer)

  read_composite :
      (bytes s p : List ℕ) (a b : V)
      → from_be (slice 0 2 bytes) ≡ length s
      → from_be (slice (2 + length s) 2 bytes) ≡ length p
      → slice 2 (length s) bytes ≡ s
      → slice (2 + length s + 2) (length p) bytes ≡ p
      → length bytes ≡ 2 + length s + 2 + length p
      → deserialize_key s ≡ ok a
      → deserialize_key p ≡ ok b
      → deserialize_composite_key bytes ≡ ok (a, b)
  unfolding deserialize_composite_key
  read_composite bytes s p a b e1 e2 e3 e4 len da db =
      rw (e1, e2, long4, long_s, long_p, e3, e4) (ground (arith, da, db))
    where
      long4 : ltb (length bytes) 4 ≡ false
      long4 = ground (arith, len)

      long_s : ltb (length bytes) (2 + length s + 2) ≡ false
      long_s = ground (arith, len)

      long_p : ltb (length bytes) (2 + length s + 2 + length p) ≡ false
      long_p = ground (arith, len)

  module _ (s p : List ℕ) (hs : length s < 2 ^ 16) (hp : length p < 2 ^ 16) where
    abbrev n : List ℕ
    n = be 2 (length s % 2 ^ 16)

    abbrev m : List ℕ
    m = be 2 (length p % 2 ^ 16)

    flat : with_length s ++ with_length p ≡ n ++ (s ++ (m ++ p))
    flat = append_assoc n s (m ++ p)

    length-n : length n ≡ 2
    length-n = length-be 2 (length s % 2 ^ 16)

    word : (k : ℕ) → k < 2 ^ 16 → from_be (be 2 (k % 2 ^ 16)) ≡ k
    word k h = from_be-be 2 (k % 2 ^ 16) (omega arith) ∙ omega arith

    parts :
        (from_be (slice 0 2 (n ++ (s ++ (m ++ p)))) ≡ length s)
        × (from_be (slice (2 + length s) 2 (n ++ (s ++ (m ++ p)))) ≡ length p)
        × (slice 2 (length s) (n ++ (s ++ (m ++ p))) ≡ s)
        × (slice (2 + length s + 2) (length p) (n ++ (s ++ (m ++ p))) ≡ p)
        × (length (n ++ (s ++ (m ++ p))) ≡ 2 + length s + 2 + length p)
    parts = (
      ap from_be (slice_middle 0 2 [] n (s ++ (m ++ p)) refl (sym length-n)) ∙ word (length s) hs,
      ap from_be (
            ap (slice (2 + length s) 2) (sym (append_assoc n s (m ++ p)))
            ∙ slice_middle (2 + length s) 2 (n ++ s) m p
                (omega (arith, length-append n s, length-n))
                (sym (length-be 2 (length p % 2 ^ 16))))
          ∙ word (length p) hp,
      slice_middle 2 (length s) n s (m ++ p) (sym length-n) refl,
      ap (slice (2 + length s + 2) (length p)) (
            ap (λ t. n ++ t) (sym (append_assoc s m p))
            ∙ sym (append_assoc n (s ++ m) p)
            ∙ ap (λ t. (n ++ (s ++ m)) ++ t) (sym (append-nil p)))
          ∙ slice_middle (2 + length s + 2) (length p) (n ++ (s ++ m)) p []
              (omega (
                arith,
                length-append n (s ++ m),
                length-append s m,
                length-n,
                length-be 2 (length p % 2 ^ 16),
              ))
              refl,
      omega (
        arith,
        length-append n (s ++ (m ++ p)),
        length-append s (m ++ p),
        length-append m p,
        length-n,
        length-be 2 (length p % 2 ^ 16),
      ),
    )

  -- Two values whose keys serialize to fewer than 2^16 bytes, and deserialize again, come back from
  -- their composite key.
  pub deserialize_composite_key-serialize :
      (serialize_key : V → Result Error (List ℕ)) (a b : V) (s p : List ℕ)
      → serialize_key a ≡ ok s
      → serialize_key b ≡ ok p
      → deserialize_key s ≡ ok a
      → deserialize_key p ≡ ok b
      → length s < 2 ^ 16
      → length p < 2 ^ 16
      → (bytes : List ℕ) × (serialize_composite_key serialize_key a b ≡ ok bytes)
        × (deserialize_composite_key bytes ≡ ok (a, b))
  unfolding serialize_composite_key
  deserialize_composite_key-serialize serialize_key a b s p sa sb da db hs hp =
      let (e1, e2, e3, e4, len) = parts s p hs hp in
      (
        with_length s ++ with_length p,
        ground (arith, sa, sb),
        ap deserialize_composite_key (flat s p hs hp)
            ∙ read_composite _ s p a b e1 e2 e3 e4 len da db,
      )
