-- ===== src/Query/Page.antt =====
-- The page of a query: limit and offset.
use masterkeeper.Base.{
  ℕ, zero, suc, ◌+◌, ◌-◌, ◌^◌, ◌≤◌, ◌<◌, false, none, some, List, [], ◌∷◌, ◌≡◌, refl, sym, ap, ◌∙◌,
  length, get_elem?, take, drop, arith, if◌then◌else◌, ltb, length-drop, inl, inr, Bool-cases,
  ltb→lt, lt→ltb,
}
use native.Mathlib.Decide.{dec_lt}
use masterkeeper.Base.Int.{pos, negsuc, signed64-pos}
use masterkeeper.Query.{collect, page}

not_lt : (a b : ℕ) → ¬ (a < b) → ltb a b ≡ false
not_lt a b h = ground (arith, h)

module _ {ℓ} {A : Type ℓ} where
  collect-suc : (n i : ℕ) (x : A) (xs : List A) → collect n (suc i) (x ∷ xs) ≡ collect n i xs
  unfolding collect
  collect-suc zero i x xs = refl
  collect-suc (suc n) i x xs =
      ap (λ t. elim (get_elem? xs i) as (λ o. List A) [ none ↦ [] | some y ↦ y ∷ t ])
        (collect-suc n (suc i) x xs)

  collect-eq : (n i : ℕ) (xs : List A) → collect n i xs ≡ take n (drop i xs)
  unfolding collect
  collect-eq zero i xs = refl
  collect-eq (suc n) zero [] = refl
  collect-eq (suc n) (suc i) [] = refl
  collect-eq (suc n) zero (x ∷ xs) = ap (λ t. x ∷ t) (collect-suc n 0 x xs ∙ collect-eq n 0 xs)
  collect-eq (suc n) (suc i) (x ∷ xs) = collect-suc (suc n) i x xs ∙ collect-eq (suc n) i xs

  take_beyond : (n : ℕ) (xs : List A) → length xs ≤ n → take n xs ≡ xs
  take_beyond zero [] h = refl
  take_beyond zero (x ∷ xs) h = absurd (omega arith)
  take_beyond (suc n) [] h = refl
  take_beyond (suc n) (x ∷ xs) h = ap (λ t. x ∷ t) (take_beyond n xs (omega arith))

  drop_beyond : (n : ℕ) (xs : List A) → length xs ≤ n → drop n xs ≡ []
  drop_beyond zero [] h = refl
  drop_beyond zero (x ∷ xs) h = absurd (omega arith)
  drop_beyond (suc n) [] h = refl
  drop_beyond (suc n) (x ∷ xs) h = drop_beyond n xs (omega arith)

  -- The start of the page: the offset, or the end of the records.
  abbrev start : ℕ → List A → ℕ
  start offset xs = if ltb (length xs) offset then length xs else offset

  drop-start : (offset : ℕ) (xs : List A) → drop (start offset xs) xs ≡ drop offset xs
  drop-start offset xs = elim (Bool-cases (ltb (length xs) offset)) [
    | inl beyond ↦ rw (
      beyond,
      drop_beyond (length xs) xs (omega arith),
      drop_beyond offset xs (omega (arith, ltb→lt (length xs) offset beyond)),
    )
    | inr inside ↦ rw inside
  ]

  start-le : (offset : ℕ) (xs : List A) → start offset xs ≤ length xs
  start-le offset xs = ground arith

  rest-eq :
      (n offset : ℕ) (xs : List A)
      → length xs - start offset xs ≤ n
      → collect n (start offset xs) xs ≡ drop offset xs
  rest-eq n offset xs h =
      collect-eq n (start offset xs) xs
      ∙ take_beyond n (drop (start offset xs) xs) (omega (arith, length-drop (start offset xs) xs))
      ∙ drop-start offset xs

  -- Without a limit the page is all that follows the offset.
  pub page-drop : (offset n : ℕ) (xs : List A) → page offset (negsuc n) xs ≡ drop offset xs
  unfolding page
  page-drop offset n xs = rest-eq (length xs - start offset xs) offset xs (omega arith)

  whole_page :
      (offset l : ℕ) (xs : List A)
      → length xs < start offset xs + l
      → drop offset xs ≡ take l (drop offset xs)
  whole_page offset l xs h =
      ap (λ t. t) (sym (drop-start offset xs))
      ∙ sym (
          take_beyond l (drop (start offset xs) xs)
            (omega (arith, length-drop (start offset xs) xs)))
      ∙ ap (take l) (drop-start offset xs)

  page-to :
      (offset l : ℕ) (xs : List A)
      → start offset xs + l < 2 ^ 63
      → page offset (pos l) xs ≡ (
          if ltb (length xs) (start offset xs + l)
          then collect (length xs - start offset xs) (start offset xs) xs
          else collect (start offset xs + l - start offset xs) (start offset xs) xs)
  unfolding page
  page-to offset l xs h =
      ap
        (λ z. elim z as (λ o. List A) [
          | negsuc n ↦ []
          | pos to ↦
              if ltb (length xs) to
              then collect (length xs - start offset xs) (start offset xs) xs
              else collect (to - start offset xs) (start offset xs) xs
        ])
        (signed64-pos (start offset xs + l) h)

  -- With a limit whose sum with the number of records is below 2^63 the page is the first records behind the
  -- offset, as many as the limit says or as there are.
  pub page-take :
      (offset l : ℕ) (xs : List A)
      → length xs + l < 2 ^ 63
      → page offset (pos l) xs ≡ take l (drop offset xs)
  page-take offset l xs small = elim (dec_lt (length xs) (start offset xs + l)) [
    | yes beyond ↦
        page-to offset l xs (omega (arith, start-le offset xs))
        ∙ rw (lt→ltb (length xs) (start offset xs + l) beyond) (
            rest-eq (length xs - start offset xs) offset xs (omega arith)
            ∙ whole_page offset l xs beyond)
    | no inside ↦
        page-to offset l xs (omega (arith, start-le offset xs))
        ∙ rw (not_lt (length xs) (start offset xs + l) inside) (
            collect-eq (start offset xs + l - start offset xs) (start offset xs) xs
            ∙ ap (λ n. take n (drop (start offset xs) xs)) (omega arith)
            ∙ ap (take l) (drop-start offset xs))
  ]

  -- With a limit that is an `int` but whose sum with an offset inside the records is not, such as the
  -- largest `int` behind an offset of one, the page is empty.
  pub page-overflow :
      (offset l : ℕ) (xs : List A)
      → l < 2 ^ 63
      → offset ≤ length xs
      → length xs < 2 ^ 63
      → 2 ^ 63 ≤ offset + l
      → page offset (pos l) xs ≡ []
  unfolding page
  page-overflow offset l xs hl inside hx over = ground arith
