-- ===== src/Query/Filter.antt =====
-- query.go, `List`: the records that a query keeps, those that match, one for each key.
use masterkeeper.Base.{
  Bool, true, false, ◌&&◌, ◌||◌, Option, none, some, List, [], ◌∷◌, ◌++◌, ◌≡◌, ◌≢◌, refl, sym, ap,
  ◌∙◌, ◌⊎◌, inl, inr, if◌then◌else◌, Comparable, arith, All, Bool-cases,
}
use masterkeeper.Query.{Fields, Condition, same_key, is_duplicate, filter_records, matches}
use masterkeeper.Query.Conditions.{Satisfies, matches-Satisfies, Satisfies-matches}

module _ {K R F : Type 0} ⦃e : Comparable K⦄ (fields : Fields K R F) where
  -- Does one of the records match and have this key?
  abbrev pub matched : List (Condition F) → Option K → List R → Bool
  matched cs k [] = false
  matched cs k (r ∷ rs) =
      (matches fields cs r && same_key (fields.primary_key r) k) || matched cs k rs

  same_key-eq : (j k : Option K) → same_key j k ≡ true → j ≡ k
  same_key-eq none none h = refl
  same_key-eq none (some k) h = absurd (cc)
  same_key-eq (some j) none h = absurd (cc)
  same_key-eq (some j) (some k) h = ap some ((e.equals_iff j k).0 h)

  is_duplicate-snoc :
      (k : Option K) (rs : List R) (r : R)
      → is_duplicate fields k (rs ++ r ∷ [])
        ≡ (is_duplicate fields k rs || same_key (fields.primary_key r) k)
  unfolding is_duplicate
  is_duplicate-snoc k [] r = if_or (same_key (fields.primary_key r) k)
    where
      if_or : (b : Bool) → (if b then true else false) ≡ b
      if_or true = refl
      if_or false = refl
  is_duplicate-snoc k (x ∷ xs) r =
      ap (λ d. if same_key (fields.primary_key x) k then true else d) (is_duplicate-snoc k xs r)
      ∙ or_assoc (same_key (fields.primary_key x) k) (is_duplicate fields k xs)
          (same_key (fields.primary_key r) k)
    where
      or_assoc : (a b c : Bool) → (if a then true else (b || c)) ≡ ((if a then true else b) || c)
      or_assoc true b c = refl
      or_assoc false b c = refl

  -- One round, seen by a key.
  round :
      (k : Option K) (cs : List (Condition F)) (acc : List R) (r : R)
      → is_duplicate fields k (
          if matches fields cs r
          then (if is_duplicate fields (fields.primary_key r) acc then acc else acc ++ r ∷ [])
          else acc)
        ≡ (is_duplicate fields k acc || (matches fields cs r && same_key (fields.primary_key r) k))
  round k cs acc r =
      go (matches fields cs r) (is_duplicate fields (fields.primary_key r) acc)
        (same_key (fields.primary_key r) k)
        (λ same. ap (λ j. is_duplicate fields j acc) (same_key-eq (fields.primary_key r) k same))
        (is_duplicate-snoc k acc r)
    where
      go :
          (m d s : Bool)
          → (s ≡ true → d ≡ is_duplicate fields k acc)
          → is_duplicate fields k (acc ++ r ∷ []) ≡ (is_duplicate fields k acc || s)
          → is_duplicate fields k (if m then (if d then acc else acc ++ r ∷ []) else acc)
            ≡ (is_duplicate fields k acc || (m && s))
      go true true true same snoc = ground (arith, same refl)
      go true true false same snoc = ground arith
      go true false s same snoc = snoc
      go false d s same snoc = ground arith

  filter-keys :
      (k : Option K) (cs : List (Condition F)) (rs acc : List R)
      → is_duplicate fields k (filter_records fields cs acc rs)
        ≡ (is_duplicate fields k acc || matched cs k rs)
  unfolding filter_records
  filter-keys k cs [] acc = ground arith
  filter-keys k cs (r ∷ rs) acc = filter-keys k cs rs _ ∙ ground (arith, round k cs acc r)

  -- A key is found in the filtered records exactly when one of the records that match has it.
  pub is_duplicate-filter_records :
      (cs : List (Condition F)) (rs : List R) (k : Option K)
      → is_duplicate fields k (filter_records fields cs [] rs) ≡ matched cs k rs
  unfolding is_duplicate
  is_duplicate-filter_records cs rs k = filter-keys k cs rs []

  -- A record of the list is a match, and no record behind it has its key.
  abbrev IsKept : List (Condition F) → List R → Type 0
  IsKept cs [] = Unit
  IsKept cs (r ∷ rs) =
      (matches fields cs r ≡ true)
      × (is_duplicate fields (fields.primary_key r) rs ≡ false)
      × IsKept cs rs

  same_key-sym : (j k : Option K) → same_key j k ≡ same_key k j
  same_key-sym none none = refl
  same_key-sym none (some k) = refl
  same_key-sym (some j) none = refl
  same_key-sym (some j) (some k) = ground (arith, e.equals_iff j k, e.equals_iff k j)

  IsKept-snoc :
      (cs : List (Condition F)) (rs : List R) (r : R)
      → IsKept cs rs
      → matches fields cs r ≡ true
      → is_duplicate fields (fields.primary_key r) rs ≡ false
      → IsKept cs (rs ++ r ∷ [])
  unfolding is_duplicate
  IsKept-snoc cs [] r h m d = (m, refl, tt)
  IsKept-snoc cs (x ∷ xs) r h m d = (
    h.0,
    is_duplicate-snoc (fields.primary_key x) xs r
        ∙ ground (arith, h.1, same_key-sym (fields.primary_key x) (fields.primary_key r)),
    IsKept-snoc cs xs r h.2 m (ground arith),
  )

  filter-IsKept :
      (cs : List (Condition F)) (rs acc : List R)
      → IsKept cs acc
      → IsKept cs (filter_records fields cs acc rs)
  unfolding filter_records
  filter-IsKept cs [] acc h = h
  filter-IsKept cs (r ∷ rs) acc h =
      filter-IsKept cs rs _
        (step (matches fields cs r) (is_duplicate fields (fields.primary_key r) acc) refl refl)
    where
      step :
          (m d : Bool)
          → matches fields cs r ≡ m
          → is_duplicate fields (fields.primary_key r) acc ≡ d
          → IsKept cs (if m then (if d then acc else acc ++ r ∷ []) else acc)
      step true true p q = h
      step true false p q = IsKept-snoc cs acc r h p q
      step false d p q = h

  -- Each record satisfies all conditions, and no later one has its key.
  abbrev pub IsFiltered : List (Condition F) → List R → Type 0
  IsFiltered cs [] = Unit
  IsFiltered cs (r ∷ rs) =
      All (λ c. Satisfies fields c r) cs
      × All (λ s. fields.primary_key r ≢ fields.primary_key s) rs
      × IsFiltered cs rs

  same_key_refl : (k : Option K) → same_key k k ≡ true
  same_key_refl none = refl
  same_key_refl (some k) = (e.equals_iff k k).1 refl

  is_duplicate-apart :
      (k : Option K) (rs : List R)
      → is_duplicate fields k rs ≡ false
      → All (λ s. k ≢ fields.primary_key s) rs
  unfolding is_duplicate
  is_duplicate-apart k [] h = tt
  is_duplicate-apart k (r ∷ rs) h = elim (Bool-cases (same_key (fields.primary_key r) k)) [
    | inl same ↦ absurd (ground (arith, same, h))
    | inr other ↦ (
      λ p.
          no (same_key (fields.primary_key r) k) other
            (ap (λ q. same_key q k) (sym p) ∙ same_key_refl k),
      is_duplicate-apart k rs (ground (arith, other, h)),
    )
  ]
    where
      no : (b : Bool) → b ≡ false → b ≡ true → ⊥
      no b p q = cc

  IsKept-IsFiltered : (cs : List (Condition F)) (rs : List R) → IsKept cs rs → IsFiltered cs rs
  IsKept-IsFiltered cs [] h = tt
  IsKept-IsFiltered cs (r ∷ rs) h = (
    matches-Satisfies fields cs r h.0,
    is_duplicate-apart (fields.primary_key r) rs h.1,
    IsKept-IsFiltered cs rs h.2,
  )

  -- One of the records has this key.
  abbrev pub HasKey : Option K → List R → Type 0
  HasKey k [] = ⊥
  HasKey k (r ∷ rs) = (fields.primary_key r ≡ k) ⊎ HasKey k rs

  -- Each record of the first list fails a condition, or its key is in the second one.
  abbrev pub IsCovered : List (Condition F) → List R → List R → Type 0
  IsCovered cs [] out = Unit
  IsCovered cs (r ∷ rs) out =
      ((¬ All (λ c. Satisfies fields c r) cs) ⊎ HasKey (fields.primary_key r) out)
      × IsCovered cs rs out

  is_duplicate-HasKey : (k : Option K) (rs : List R) → is_duplicate fields k rs ≡ true → HasKey k rs
  unfolding is_duplicate
  is_duplicate-HasKey k [] h = absurd (cc)
  is_duplicate-HasKey k (r ∷ rs) h = elim (Bool-cases (same_key (fields.primary_key r) k)) [
    | inl same ↦ inl (same_key-eq (fields.primary_key r) k same)
    | inr other ↦ inr (is_duplicate-HasKey k rs (ground (arith, other, h)))
  ]

  covered :
      (cs : List (Condition F)) (rs out : List R)
      → ((k : Option K) → matched cs k rs ≡ true → is_duplicate fields k out ≡ true)
      → IsCovered cs rs out
  covered cs [] out h = tt
  covered cs (r ∷ rs) out h = (
    elim (Bool-cases (matches fields cs r)) [
      | inl meets ↦ inr (
          is_duplicate-HasKey (fields.primary_key r) out (
            h (fields.primary_key r) (ground (arith, meets, same_key_refl (fields.primary_key r)))))
      | inr fails ↦ inl (λ all. no fails (Satisfies-matches fields cs r all))
    ],
    covered cs rs out (λ k found. h k (ground (arith, found))),
  )
    where
      no : {b : Bool} → b ≡ false → b ≡ true → ⊥
      no p q = cc

  -- Every filtered record satisfies all conditions of the query, as the comparison and the equality
  -- of values decide them, no two of them have the same key, and the key of every record that
  -- satisfies all conditions is the key of a filtered one.
  pub filter_records-IsFiltered :
      (cs : List (Condition F)) (rs : List R)
      → IsFiltered cs (filter_records fields cs [] rs)
        × IsCovered cs rs (filter_records fields cs [] rs)
  filter_records-IsFiltered cs rs = (
    IsKept-IsFiltered cs _ (filter-IsKept cs rs [] tt),
    covered cs rs _ (λ k found. is_duplicate-filter_records cs rs k ∙ found),
  )
