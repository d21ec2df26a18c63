-- ===== src/Commit/Idle.antt =====
-- tx.go, `Commit`: the test for something to write against the changes of the transaction,
-- and what those show where there is nothing.
use masterkeeper.Base.{
  String, Bool, true, false, [], ◌∷◌, ◌≡◌, refl, sym, arith, All, Bool-cases, Option, none, some,
  ◌==◌, Comparable, string_eq, inl, inr,
}
use masterkeeper.Base.Dict.{Dict, get}
use masterkeeper.Transaction.State.{Committed, TableChangeSet, new_table_change_set, is_empty}
use masterkeeper.Transaction.View.{committed_view, staged_view, base_view}
use masterkeeper.Commit.Indexes.{Indexes}
use masterkeeper.Commit.Shadow.{Schema}
use masterkeeper.Commit.Apply.{has_writes}

-- Nothing is staged for the table.
abbrev pub IsIdle : {V R : Type 0} → TableChangeSet V R → Type 0
IsIdle c = (c.cleared ≡ false) × (c.inserts ≡ []) × (c.updates ≡ []) × (c.deletes ≡ [])

abbrev pub AreIdle : {V R : Type 0} → Dict String (TableChangeSet V R) → Type 0
AreIdle changes = All (λ entry. IsIdle entry.1) changes

is_empty-IsIdle : {V R : Type 0} → (c : TableChangeSet V R) → is_empty c ≡ true → IsIdle c
unfolding is_empty
is_empty-IsIdle {V} {R} c h = by_parts c.cleared c.inserts c.updates c.deletes h
  where
    by_parts :
        (cleared : Bool) (inserts updates : Dict V R) (deletes : Dict V (Unit {0}))
        → is_empty
            (record { cleared = cleared; inserts = inserts; updates = updates; deletes = deletes })
          ≡ true
        → (cleared ≡ false) × (inserts ≡ []) × (updates ≡ []) × (deletes ≡ [])
    by_parts false [] [] [] h = (refl, refl, refl, refl)
    by_parts true inserts updates deletes h = absurd (cc)
    by_parts false (r ∷ rs) updates deletes h = absurd (cc)
    by_parts false [] (r ∷ rs) deletes h = absurd (cc)
    by_parts false [] [] (r ∷ rs) h = absurd (cc)

IsIdle-is_empty : {V R : Type 0} → (c : TableChangeSet V R) → IsIdle c → is_empty c ≡ true
unfolding is_empty
IsIdle-is_empty c h = rw (h.0, h.1, h.2, h.3) refl

-- The changes of a table; a missing entry is an empty one.
abbrev pub staged_changes :
    {V R : Type 0} → Dict String (TableChangeSet V R) → String → TableChangeSet V R
staged_changes changes name = elim (get changes name) [ none ↦ new_table_change_set | some c ↦ c ]

module _ {V R T : Type 0} ⦃e : Comparable V⦄ (schema : Schema V R) (x : Indexes T) where
  pub has_writes-AreIdle :
      (changes : Dict String (TableChangeSet V R))
      → has_writes schema x changes ≡ false
      → AreIdle changes
  has_writes-AreIdle [] h = tt
  has_writes-AreIdle ((name, c) ∷ rest) h = elim (Bool-cases (is_empty c)) [
    | inl empty ↦ (is_empty-IsIdle c empty, has_writes-AreIdle rest (ground (arith, empty, h)))
    | inr busy ↦ absurd (ground (arith, busy, h))
  ]

  AreIdle-has_writes :
      (changes : Dict String (TableChangeSet V R))
      → AreIdle changes
      → has_writes schema x changes ≡ false
  AreIdle-has_writes [] h = refl
  AreIdle-has_writes ((name, c) ∷ rest) h = rw (IsIdle-is_empty c h.0) (AreIdle-has_writes rest h.1)

  pub has_writes-busy :
      (changes : Dict String (TableChangeSet V R))
      → has_writes schema x changes ≡ true
      → AreIdle changes
      → ⊥
  has_writes-busy changes writes idle = apart writes (AreIdle-has_writes changes idle)
    where
      apart : {b : Bool} → b ≡ true → b ≡ false → ⊥
      apart p q = cc

  -- A change set that is empty shows what is committed.
  empty_view :
      (committed : Committed V R) (name : String) (c : TableChangeSet V R) (j : V)
      → is_empty c ≡ true
      → staged_view committed name c j ≡ committed_view committed name j
  unfolding is_empty staged_view base_view get
  empty_view committed name c j idle = by_parts c.cleared c.inserts c.updates c.deletes idle
    where
      by_parts :
          (cleared : Bool) (inserts updates : Dict V R) (deletes : Dict V (Unit {0}))
          → is_empty (record {
            cleared = cleared;
            inserts = inserts;
            updates = updates;
            deletes = deletes;
          })
            ≡ true
          → staged_view committed name
              (record {
                cleared = cleared;
                inserts = inserts;
                updates = updates;
                deletes = deletes;
              })
              j
            ≡ committed_view committed name j
      by_parts false [] [] [] h = refl
      by_parts true inserts updates deletes h = absurd (cc)
      by_parts false (r ∷ rs) updates deletes h = absurd (cc)
      by_parts false [] (r ∷ rs) deletes h = absurd (cc)
      by_parts false [] [] (r ∷ rs) h = absurd (cc)

  idle_changes :
      (changes : Dict String (TableChangeSet V R)) (name : String) (c : TableChangeSet V R)
      → has_writes schema x changes ≡ false
      → get changes name ≡ some c
      → is_empty c ≡ true
  unfolding get
  idle_changes [] name c idle here = absurd (cc)
  idle_changes ((n, b) ∷ rest) name c idle here = elim (Bool-cases (is_empty b)) [
    | inr busy ↦ absurd (ground (arith, busy, idle))
    | inl empty ↦ elim (Bool-cases (n == name)) [
      | inl same ↦ ground (arith, same, here, empty)
      | inr other ↦
          idle_changes rest name c (ground (arith, empty, idle)) (ground (arith, other, here))
    ]
  ]

  new_table_change_set-empty : is_empty (new_table_change_set {K = V} {R = R}) ≡ true
  unfolding is_empty
  new_table_change_set-empty = refl

  pub idle_view :
      (committed : Committed V R) (changes : Dict String (TableChangeSet V R)) (name : String)
      (j : V)
      → has_writes schema x changes ≡ false
      → committed_view committed name j ≡ staged_view committed name (staged_changes changes name) j
  idle_view committed changes name j idle =
      sym (
        empty_view committed name (staged_changes changes name) j
          (by_entry (get changes name) refl))
    where
      by_entry :
          (o : Option (TableChangeSet V R))
          → get changes name ≡ o
          → is_empty
              (elim o as (λ o. TableChangeSet V R) [ none ↦ new_table_change_set | some c ↦ c ])
            ≡ true
      by_entry none here = new_table_change_set-empty
      by_entry (some c) here = idle_changes changes name c idle here
