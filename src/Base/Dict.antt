-- ===== src/Base/Dict.antt =====
-- A Go map as an association list: `m[k]`, `m[k] = v` and `delete(m, k)`. The order of the list
-- stands for the order in which `range` visits the entries.
use mathlib.Core.Path.{◌≡◌, refl, sym, ap, ◌∙◌}
use mathlib.Core.Bool.{Bool, true, false}
use mathlib.Core.List.{List, [], ◌∷◌}
use mathlib.Core.Option.{Option, none, some}
use native.Mathlib.Omega.{arith}
use mathlib.Core.Logic.{inl, inr}
use masterkeeper.Base.Tests.{if◌then◌else◌, Bool-cases}
use masterkeeper.Base.Lists.{All}
use masterkeeper.Base.Equality.{Comparable, ◌==◌}

abbrev pub Dict {ℓ κ} : Type ℓ → Type κ → Type (ℓ ⊔ κ)
Dict K V = List (K × V)

pub equals_refl {ℓ} : {K : Type ℓ} ⦃e : Comparable K⦄ (k : K) → (k == k) ≡ true
equals_refl ⦃e⦄ k = (e.equals_iff k k).1 refl

module _ {ℓ κ} {K : Type ℓ} {V : Type κ} ⦃e : Comparable K⦄ where
  unfoldable pub get : Dict K V → K → Option V
  get [] k = none
  get ((j, v) ∷ m) k = if j == k then some v else get m k

  unfoldable pub put : Dict K V → K → V → Dict K V
  put [] k v = (k, v) ∷ []
  put ((j, w) ∷ m) k v = if j == k then (k, v) ∷ m else (j, w) ∷ put m k v

  unfoldable pub remove : Dict K V → K → Dict K V
  remove [] k = []
  remove ((j, v) ∷ m) k = let rest = remove m k in if j == k then rest else (j, v) ∷ rest

  abbrev pub contains : Dict K V → K → Bool
  contains m k = elim (get m k) [ none ↦ false | some _ ↦ true ]

  pub get-nil : (k : K) → get [] k ≡ none
  unfolding get
  get-nil k = refl

  pub get-put :
      (m : Dict K V) (k : K) (v : V) (j : K)
      → get (put m k v) j ≡ (if k == j then some v else get m j)
  unfolding get put
  get-put [] k v j = refl
  get-put ((i, w) ∷ m) k v j =
      ground (arith, e.equals_iff k j, e.equals_iff i k, e.equals_iff i j, get-put m k v j)

  pub get-remove :
      (m : Dict K V) (k j : K) → get (remove m k) j ≡ (if k == j then none else get m j)
  unfolding get remove
  get-remove [] k j = ground arith
  get-remove ((i, w) ∷ m) k j =
      ground (arith, e.equals_iff k j, e.equals_iff i k, e.equals_iff i j, get-remove m k j)

module _ {ℓ κ} {K : Type ℓ} {V : Type κ} ⦃e : Comparable K⦄ where
  -- No key stands twice.
  abbrev pub IsDistinct : Dict K V → Type κ
  IsDistinct [] = Unit {κ}
  IsDistinct ((k, v) ∷ m) = (get m k ≡ none) × IsDistinct m

  pub put-IsDistinct : (m : Dict K V) (k : K) (v : V) → IsDistinct m → IsDistinct (put m k v)
  unfolding get put
  put-IsDistinct [] k v h = (refl, tt)
  put-IsDistinct ((j, w) ∷ m) k v h = elim (Bool-cases (j == k)) [
    | inl same ↦ rw same (ap (get m) (sym ((e.equals_iff j k).0 same)) ∙ h.0, h.1)
    | inr other ↦ rw other (
      ground (arith, get-put m k v j, e.equals_iff k j, e.equals_iff j k, other, h.0),
      put-IsDistinct m k v h.1,
    )
  ]

  pub remove-IsDistinct : (m : Dict K V) (k : K) → IsDistinct m → IsDistinct (remove m k)
  unfolding get remove
  remove-IsDistinct [] k h = tt
  remove-IsDistinct ((j, w) ∷ m) k h = elim (Bool-cases (j == k)) [
    | inl same ↦ rw same (remove-IsDistinct m k h.1)
    | inr other ↦ rw other (ground (arith, get-remove m k j, h.0), remove-IsDistinct m k h.1)
  ]

  pub put-All {ι} :
      (P : K × V → Type ι) (m : Dict K V) (k : K) (v : V) → All P m → P (k, v) → All P (put m k v)
  unfolding put
  put-All P [] k v h p = (p, tt)
  put-All P ((j, w) ∷ m) k v h p = elim (Bool-cases (j == k)) [
    | inl same ↦ rw same (p, h.1)
    | inr other ↦ rw other (h.0, put-All P m k v h.1 p)
  ]

  pub remove-All {ι} : (P : K × V → Type ι) (m : Dict K V) (k : K) → All P m → All P (remove m k)
  unfolding remove
  remove-All P [] k h = tt
  remove-All P ((j, w) ∷ m) k h = elim (Bool-cases (j == k)) [
    | inl same ↦ rw same (remove-All P m k h.1)
    | inr other ↦ rw other (h.0, remove-All P m k h.1)
  ]

  get-cons :
      (m : Dict K V) (j k : K) (w v : V)
      → get m j ≡ none
      → get m k ≡ some v
      → get ((j, w) ∷ m) k ≡ some v
  unfolding get
  get-cons m j k w v fresh there = elim (Bool-cases (j == k)) [
    | inl same ↦ absurd (clash (ap (get m) ((e.equals_iff j k).0 same)) fresh there)
    | inr other ↦ rw other there
  ]
    where
      clash : {o q : Option V} → o ≡ q → o ≡ none → q ≡ some v → ⊥
      clash p h g = cc

  -- What holds of the entry of every key holds of all entries, where no key stands twice.
  pub All-get {ι} :
      (P : K × V → Type ι) (m : Dict K V)
      → IsDistinct m
      → ((k : K) (v : V) → get m k ≡ some v → P (k, v))
      → All P m
  unfolding get
  All-get P [] h f = tt
  All-get P ((j, w) ∷ m) h f =
      (f j w (rw (equals_refl j) refl), All-get P m h.1 (λ k v p. f k v (get-cons m j k w v h.0 p)))

pub ruleset dict_laws = (get-nil, get-put, get-remove, equals_refl)
