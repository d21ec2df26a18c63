-- ===== src/Commit/Conflicts.antt =====
-- `checkConflict` and the loops around it: what the values that they collect stand for.
use masterkeeper.Base.{
  ℕ, String, Bool, false, Option, none, some, [], ◌∷◌, ◌≡◌, ◌⊎◌, inl, inr, ap, ◌∙◌, Comparable,
  ◌==◌, arith, Option-cases, Bool-cases, string_eq,
}
use mathlib.Core.Path.{subst, subst₂}
use masterkeeper.Base.Dict.{Dict, get, put, contains, get-put}
use masterkeeper.Base.Result.{bind-ok, Result, ok, ok_inj}
use masterkeeper.Storage.{RecordPointer}
use masterkeeper.Transaction.State.{IndexMetadata}
use masterkeeper.Commit.Indexes.{Indexes}
use masterkeeper.Commit.Shadow.{Schema}
use masterkeeper.Commit.Unique.{indexed_value, is_taken, check_conflict, check_records}

module _ {V R T : Type 0} ⦃e : Comparable V⦄ (schema : Schema V R) (x : Indexes T)
    (read : RecordPointer → Result ℕ R) (name : String) (t : T) (m : IndexMetadata) where
  abbrev pub value : R → Option V
  value = indexed_value schema x read name t m

  module _ (cleared : Bool) (removed : Dict V (Unit {0})) where
    -- The committed index has been asked about the value, where that is called for.
    abbrev pub Passes : V → V → Type 0
    Passes v k =
        cleared ≡ false → contains removed v ≡ false → is_taken schema x read name t m v k ≡ false

    abbrev pub IsPassed : Dict V V → Type 0
    IsPassed added = (v k : V) → get added v ≡ some k → Passes v k

    abbrev pub Extends : Dict V V → Dict V V → Type 0
    Extends added more = (v k : V) → get added v ≡ some k → get more v ≡ some k

    check_conflict-none :
        (k : V) (added more : Dict V V)
        → check_conflict schema x read name t m cleared removed k none added ≡ ok more
        → added ≡ more
    unfolding check_conflict
    check_conflict-none k added more eq = ok_inj eq

    -- The value was there for the same key, or it is entered.
    check_conflict-some :
        (k v : V) (added more : Dict V V)
        → check_conflict schema x read name t m cleared removed k (some v) added ≡ ok more
        → ((get added v ≡ some k) × (added ≡ more))
          ⊎ ((get added v ≡ none) × (put added v k ≡ more) × Passes v k)
    unfolding check_conflict
    check_conflict-some k v added more eq = elim (Option-cases (get added v)) [
      | inl fresh ↦
          inr
            (fresh, ground (arith, fresh, eq), λ open_ kept. ground (arith, fresh, eq, open_, kept))
      | inr (j, there) ↦ inl (ground (arith, there, e.equals_iff j k, eq))
    ]

    check_conflict-Passed :
        (k : V) (o : Option V) (added more : Dict V V)
        → check_conflict schema x read name t m cleared removed k o added ≡ ok more
        → IsPassed added
        → IsPassed more × Extends added more × ((v : V) → o ≡ some v → get more v ≡ some k)
    check_conflict-Passed k none added more eq h = (
      subst IsPassed (check_conflict-none k added more eq) h,
      subst (Extends added) (check_conflict-none k added more eq) (λ v j p. p),
      λ v p. absurd (cc),
    )
    check_conflict-Passed k (some v) added more eq h =
        elim (check_conflict-some k v added more eq) [
          | inl (there, same) ↦ (
            subst IsPassed same h,
            subst (Extends added) same (λ v j p. p),
            λ w p. ground (arith, there, same, p),
          )
          | inr (fresh, entered, passes) ↦ (
            subst IsPassed entered (λ w j p. elim (Bool-cases (v == w)) [
              | inl same ↦
                  subst₂ Passes ((e.equals_iff v w).0 same)
                    (ground (arith, get-put added v k w, same, p)) passes
              | inr other ↦ h w j (ground (arith, get-put added v k w, other, p))
            ]),
            subst (Extends added) entered
                (λ w j p. ground (arith, get-put added v k w, e.equals_iff v w, fresh, p)),
            λ w p.
                subst (λ q. get q w ≡ some k) entered
                  (ground (arith, get-put added v k w, e.equals_iff v w, p)),
          )
        ]

    pub check_records-Passed :
        (rs : Dict V R) (added more : Dict V V)
        → check_records schema x read name t m cleared removed rs added ≡ ok more
        → IsPassed added
        → IsPassed more
          × Extends added more
          × ((k v : V) (r : R) → get rs k ≡ some r → value r ≡ some v → get more v ≡ some k)
    unfolding check_records get
    check_records-Passed [] added more eq h = (
      subst IsPassed (ok_inj eq) h,
      subst (Extends added) (ok_inj eq) (λ v j p. p),
      λ k v r p q. absurd (cc),
    )
    check_records-Passed ((k, r) ∷ rest) added more eq h =
        let (next, first, later) =
          bind-ok (check_conflict schema x read name t m cleared removed k (value r) added) _ more
            eq in
        let (passed, grown, entered) = check_conflict-Passed k (value r) added next first h in
        let (all_passed, all_grown, all_entered) =
          check_records-Passed rest next more later passed in
        (
          all_passed,
          λ v j p. all_grown v j (grown v j p),
          λ j v s p q. elim (Bool-cases (k == j)) [
            | inl same ↦
                subst (λ i. get more v ≡ some i) ((e.equals_iff k j).0 same)
                  (all_grown v k (entered v (ap value (ground (arith, same, p)) ∙ q)))
            | inr other ↦ all_entered j v s (ground (arith, other, p)) q
          ],
        )
