-- ===== src/Base/Slice.antt =====
-- Slices of byte lists, and writes into them: `buf[off : off+n]` and `copy(buf[off:], bytes)`.
use Prim.Native.Nat.{ℕ, zero, suc, ◌+◌, ◌≤◌}
use mathlib.Core.Path.{◌≡◌, refl, sym, ap, ◌∙◌}
use mathlib.Core.List.{List, [], ◌∷◌, ◌++◌}
use native.Mathlib.Nat.{zero-add, suc-add}
use native.Mathlib.Omega.{arith}
use masterkeeper.Base.Lists.{length, take, drop, length-take, length-drop, take-append, drop-append}

module _ {ℓ} {A : Type ℓ} where
  abbrev pub slice : ℕ → ℕ → List A → List A
  slice off n xs = take n (drop off xs)

  pub take-append-drop : (n : ℕ) (xs : List A) → take n xs ++ drop n xs ≡ xs
  take-append-drop zero xs = refl
  take-append-drop (suc n) [] = refl
  take-append-drop (suc n) (x ∷ xs) = ap (λ t. x ∷ t) (take-append-drop n xs)

  pub take_all : (xs : List A) → take (length xs) xs ≡ xs
  take_all [] = refl
  take_all (x ∷ xs) = ap (λ t. x ∷ t) (take_all xs)

  pub take-append_le : (n : ℕ) (xs ys : List A) → n ≤ length xs → take n (xs ++ ys) ≡ take n xs
  take-append_le zero xs ys h = refl
  take-append_le (suc n) [] ys h = absurd (omega arith)
  take-append_le (suc n) (x ∷ xs) ys h = ap (λ t. x ∷ t) (take-append_le n xs ys (omega arith))

  -- What stands in front is not disturbed by what follows.
  pub slice-append :
      (off n : ℕ) (xs ys : List A) → off + n ≤ length xs → slice off n (xs ++ ys) ≡ slice off n xs
  slice-append zero n xs ys h = take-append_le n xs ys (omega arith)
  slice-append (suc off) zero [] ys h = refl
  slice-append (suc off) (suc n) [] ys h = absurd (omega arith)
  slice-append (suc off) n (x ∷ xs) ys h = slice-append off n xs ys (omega arith)

  pub slice-take :
      (off n m : ℕ) (xs : List A)
      → off + n ≤ m
      → m ≤ length xs
      → slice off n (take m xs) ≡ slice off n xs
  slice-take off n m xs h k =
      sym (slice-append off n (take m xs) (drop m xs) (omega (arith, length-take m xs)))
      ∙ ap (slice off n) (take-append-drop m xs)

  -- The middle of three parts.
  pub slice_middle :
      (off n : ℕ) (xs ys zs : List A)
      → off ≡ length xs
      → n ≡ length ys
      → slice off n (xs ++ (ys ++ zs)) ≡ ys
  slice_middle off n xs ys zs p q = rw (p, q, drop-append xs (ys ++ zs)) (take-append ys zs)

  -- A slice of a slice.
  pub slice-slice :
      (off n : ℕ) (xs ys zs : List A)
      → off + n ≤ length ys
      → slice (length xs + off) n (xs ++ (ys ++ zs)) ≡ slice off n ys
  slice-slice off n [] ys zs h = rw (zero-add) (slice-append off n ys zs h)
  slice-slice off n (x ∷ xs) ys zs h = rw suc-add (slice-slice off n xs ys zs h)

  pub length-slice : (off n : ℕ) (xs : List A) → off + n ≤ length xs → length (slice off n xs) ≡ n
  length-slice off n xs h = omega (arith, length-take n (drop off xs), length-drop off xs)

  pub drop-append_add :
      (xs ys : List A) (n m : ℕ) → n ≡ length xs + m → drop n (xs ++ ys) ≡ drop m ys
  drop-append_add [] ys n m e = ap (λ k. drop k ys) (e ∙ zero-add m)
  drop-append_add (x ∷ xs) ys zero m e = absurd (omega arith)
  drop-append_add (x ∷ xs) ys (suc n) m e = drop-append_add xs ys n m (omega arith)

  drop-nil : (m : ℕ) → ◌≡◌ {A = List A} (drop m []) []
  drop-nil zero = refl
  drop-nil (suc m) = refl

  pub drop-drop : (n m : ℕ) (xs : List A) → drop m (drop n xs) ≡ drop (n + m) xs
  drop-drop zero m xs = ap (λ k. drop k xs) (sym (zero-add m))
  drop-drop (suc n) m [] = drop-nil m ∙ sym (drop-nil (suc n + m))
  drop-drop (suc n) m (x ∷ xs) = drop-drop n m xs ∙ rw suc-add

  pub drop_all : (xs : List A) (n : ℕ) → drop (length xs + n) xs ≡ []
  drop_all [] n = drop-nil (0 + n)
  drop_all (x ∷ xs) n = rw suc-add (drop_all xs n)

  pub take-append_add : (xs ys : List A) (n : ℕ) → take (length xs + n) (xs ++ ys) ≡ xs ++ take n ys
  take-append_add [] ys n = ap (λ k. take k ys) (zero-add n)
  take-append_add (x ∷ xs) ys n = rw suc-add (ap (λ t. x ∷ t) (take-append_add xs ys n))
