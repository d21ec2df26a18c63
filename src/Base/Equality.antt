-- ===== src/Base/Equality.antt =====
-- Go's constraint `comparable`: the keys of a map, with their `==` decided.
use Prim.Native.Nat.{ℕ}
use Prim.Native.String.{String}
use mathlib.Core.Path.{◌≡◌, refl}
use mathlib.Core.Logic.{◌↔◌}
use mathlib.Core.Bool.{Bool, true, false, ◌&&◌}
use mathlib.Core.List.{List, [], ◌∷◌}
use native.Mathlib.Omega.{arith}
use text.Mathlib.Text.{◌==◌ as text_equals}
use text.Mathlib.TextEquality.{eq_iff as text_equals_iff}
use masterkeeper.Base.Tests.{nat_eqb, nat_eqb_iff}

pub record Comparable {ℓ} (K : Type ℓ) : Type ℓ where
  pub equals : K → K → Bool
  pub equals_iff : (j k : K) → (equals j k ≡ true) ↔ (j ≡ k)

instance abbrev pub string_eq : Comparable String
string_eq = record { equals = text_equals; equals_iff = text_equals_iff }

instance abbrev pub nat_eq : Comparable ℕ
nat_eq = record { equals_iff = nat_eqb_iff; equals = nat_eqb }

infix 50 ◌==◌
abbrev pub ◌==◌ {ℓ} : {K : Type ℓ} ⦃c : Comparable K⦄ → K → K → Bool
◌==◌ ⦃c⦄ = c.equals

abbrev pub bytes_equals : List ℕ → List ℕ → Bool
bytes_equals [] [] = true
bytes_equals [] (y ∷ ys) = false
bytes_equals (x ∷ xs) [] = false
bytes_equals (x ∷ xs) (y ∷ ys) = nat_eqb x y && bytes_equals xs ys

pub bytes_equals_iff : (xs ys : List ℕ) → (bytes_equals xs ys ≡ true) ↔ (xs ≡ ys)
bytes_equals_iff [] [] = (λ h. refl, λ h. refl)
bytes_equals_iff [] (y ∷ ys) = (λ h. absurd (cc), λ h. absurd (cc))
bytes_equals_iff (x ∷ xs) [] = (λ h. absurd (cc), λ h. absurd (cc))
bytes_equals_iff (x ∷ xs) (y ∷ ys) = ground (arith, nat_eqb_iff x y, bytes_equals_iff xs ys)

-- Go's `bytes.Equal`.
instance abbrev pub bytes_eq : Comparable (List ℕ)
bytes_eq = record { equals = bytes_equals; equals_iff = bytes_equals_iff }
