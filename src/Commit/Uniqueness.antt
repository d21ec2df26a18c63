-- ===== src/Commit/Uniqueness.antt =====
-- What `validateUniqueIndexes` is for: behind it, no value of a unique index is held by two keys.
use masterkeeper.Base.{
  ℕ, String, true, false, not, Option, none, some, List, [], ◌∷◌, ◌≡◌, ◌⊎◌, inl, inr, sym, ap, ◌∙◌,
  Comparable, ◌==◌, arith, Option-cases, Bool-cases, string_eq,
}
use masterkeeper.Base.Dict.{Dict, get, contains, get-put, equals_refl}
use masterkeeper.Base.Result.{bind-ok, Result, ok}
use masterkeeper.Storage.{RecordPointer}
use masterkeeper.Transaction.State.{Committed, IndexMetadata, TableChangeSet}
use masterkeeper.Transaction.View.{committed_view, staged_view, base_view}
use masterkeeper.Commit.Indexes.{Indexes}
use masterkeeper.Commit.Shadow.{Schema, read_committed_record}
use masterkeeper.Commit.Conflicts.{IsPassed, check_records-Passed}
use masterkeeper.Commit.Unique.{
  indexed_value, remove_value, removed_values, is_taken, check_records, removed_of, validate_index,
}

module _ {V R T : Type 0} ⦃e : Comparable V⦄ (schema : Schema V R) (x : Indexes T)
    (read : RecordPointer → Result ℕ R) (name : String) (t : T) (m : IndexMetadata) where
  abbrev value : R → Option V
  value = indexed_value schema x read name t m

  -- The index answers for the committed records of the table: each is read under its key, and its
  -- value leads to a record with that key.
  pub record IsIndexed (held : V → Option R) : Type 0 where
    pub reads : (k : V) → read_committed_record schema x read k t ≡ ok (held k)
    pub found :
        (k v : V) (r : R)
        → held k ≡ some r
        → indexed_value schema x read name t m r ≡ some v
        → (b : List ℕ) × (p : RecordPointer) × (s : R) × (schema.serialize_key v ≡ ok b)
          × (x.find t m.index_name b ≡ ok (some p))
          × (read p ≡ ok s)
          × (schema.primary_key s ≡ some k)

  module _ (held : V → Option R) (indexed : IsIndexed held) where
    taken :
        (k v : V) (r : R) (j : V)
        → held k ≡ some r
        → value r ≡ some v
        → is_taken schema x read name t m v j ≡ not (k == j)
    unfolding is_taken
    taken k v r j h q =
        let (b, p, s, serialized, at_b, reads_s, key) = indexed.found k v r h q in
        ground (arith, serialized, at_b, reads_s, key)

    -- Two committed records with one value stand under one key.
    pub committed_unique :
        (j k v : V) (r s : R)
        → held j ≡ some r
        → held k ≡ some s
        → value r ≡ some v
        → value s ≡ some v
        → j ≡ k
    committed_unique j k v r s hj hk qr qs =
        (e.equals_iff j k).0
          (ground (arith, taken j v r k hj qr, taken k v s k hk qs, equals_refl k))

    remove_value-eq :
        (k v : V) (removed : Dict V (Unit {0}))
        → contains (remove_value schema x read name t m k removed) v ≡ true
        → (contains removed v ≡ true) ⊎ ((r : R) × (held k ≡ some r) × (value r ≡ some v))
    unfolding remove_value
    remove_value-eq k v removed h = elim (Option-cases (held k)) [
      | inl missing ↦ inl (ground (arith, indexed.reads k, missing, h))
      | inr (r, there) ↦ elim (Option-cases (value r)) [
        | inl nil ↦ inl (ground (arith, indexed.reads k, there, nil, h))
        | inr (w, has) ↦ elim (Bool-cases (w == v)) [
          | inl same ↦ inr (r, there, has ∙ ap some ((e.equals_iff w v).0 same))
          | inr other ↦
              inl (ground (arith, indexed.reads k, there, has, h, get-put removed w tt v, other))
        ]
      ]
    ]

    removed_values-held :
        {A : Type 0} (ks : Dict V A) (v : V) (removed : Dict V (Unit {0}))
        → contains (removed_values schema x read name t m ks removed) v ≡ true
        → (contains removed v ≡ true)
          ⊎ ((k : V) × (r : R) × (contains ks k ≡ true) × (held k ≡ some r) × (value r ≡ some v))
    unfolding removed_values get
    removed_values-held [] v removed h = inl h
    removed_values-held ((k, a) ∷ rest) v removed h =
        elim (removed_values-held rest v (remove_value schema x read name t m k removed) h) [
          | inl before ↦ elim (remove_value-eq k v removed before) [
            | inl b ↦ inl b
            | inr (r, there, has) ↦ inr (k, r, ground (arith, equals_refl k), there, has)
          ]
          | inr (j, r, among, there, has) ↦ inr (j, r, ground (arith, among), there, has)
        ]

  -- Where a record that the transaction sees comes from.
  placed_in :
      (committed : Committed V R) (c : TableChangeSet V R) (k : V) (r : R)
      → staged_view committed name c k ≡ some r
      → ((get c.inserts k ≡ some r) ⊎ (get c.updates k ≡ some r))
        ⊎ ((c.cleared ≡ false)
            × (contains c.deletes k ≡ false)
            × (get c.updates k ≡ none)
            × (committed_view committed name k ≡ some r))
  unfolding staged_view base_view
  placed_in committed c k r h = elim (Option-cases (get c.inserts k)) [
    | inl fresh ↦ elim (Option-cases (get c.updates k)) [
      | inl untouched ↦ inr (ground (arith, fresh, untouched, h))
      | inr (s, there) ↦ inl (inr (ground (arith, fresh, there, h)))
    ]
    | inr (s, there) ↦ inl (inl (ground (arith, there, h)))
  ]

  module _ (committed : Committed V R) (indexed : IsIndexed (committed_view committed name))
      (c : TableChangeSet V R) (added : Dict V V)
      (valid : validate_index schema x read name t m c ≡ ok added) where
    abbrev removed : Dict V (Unit {0})
    removed = removed_of schema x read name t m c

    -- Each staged record has entered its value, and the committed index was asked about it.
    staged_added :
        IsPassed schema x read name t m c.cleared removed added
        × ((k v : V) (r : R)
            → (get c.inserts k ≡ some r) ⊎ (get c.updates k ≡ some r)
            → value r ≡ some v
            → get added v ≡ some k)
    unfolding validate_index get
    staged_added =
        let (first, inserted, updated) =
          bind-ok (check_records schema x read name t m c.cleared removed c.inserts []) _ added
            valid in
        let (passed, grown, entered) =
          check_records-Passed schema x read name t m c.cleared removed c.inserts [] first inserted
            (λ v k p. absurd (cc)) in
        let (all_passed, all_grown, all_entered) =
          check_records-Passed schema x read name t m c.cleared removed c.updates first added
            updated passed in
        (
          all_passed,
          λ k v r place q. elim place [
            | inl p ↦ all_grown v k (entered k v r p q)
            | inr p ↦ all_entered k v r p q
          ],
        )

    -- A value that the transaction frees was that of a record which it updates or deletes.
    freed :
        (v : V)
        → contains removed v ≡ true
        → (j : V) × (s : R) × ((contains c.updates j ≡ true) ⊎ (contains c.deletes j ≡ true))
          × (committed_view committed name j ≡ some s)
          × (value s ≡ some v)
    unfolding get
    freed v h = elim (Bool-cases c.cleared) [
      | inl cleared ↦ absurd (ground (arith, cleared, h))
      | inr open_ ↦
          elim (removed_values-held (committed_view committed name) indexed c.updates v _
            (ground (arith, open_, h))) [
              | inl before ↦
                  elim (removed_values-held (committed_view committed name) indexed c.deletes v []
                    before) [
                      | inl empty ↦ absurd (cc)
                      | inr (j, s, among, held, has) ↦ (j, s, inr among, held, has)
                    ]
              | inr (j, s, among, held, has) ↦ (j, s, inl among, held, has)
            ]
    ]

    -- A committed record that stays as it is does not have a value that the transaction frees.
    kept_value :
        (k v : V) (r : R)
        → contains c.deletes k ≡ false
        → get c.updates k ≡ none
        → committed_view committed name k ≡ some r
        → value r ≡ some v
        → contains removed v ≡ false
    kept_value k v r kept untouched held q = elim (Bool-cases (contains removed v)) [
      | inl there ↦
          let (j, s, among, held_j, has) = freed v there in
          absurd (
            gone k kept untouched among (
              committed_unique (committed_view committed name) indexed j k v s r held_j held has q))
      | inr other ↦ other
    ]
      where
        gone :
            {j : V} (k : V)
            → contains c.deletes k ≡ false
            → get c.updates k ≡ none
            → (contains c.updates j ≡ true) ⊎ (contains c.deletes j ≡ true)
            → j ≡ k
            → ⊥
        gone k kept untouched (inl p) same =
            ground (arith, untouched, ap (contains c.updates) (sym same) ∙ p)
        gone k kept untouched (inr p) same =
            ground (arith, kept, ap (contains c.deletes) (sym same) ∙ p)

    -- A staged record and a committed one that stays.
    staged_and_kept :
        (j k v : V) (r s : R)
        → (get c.inserts j ≡ some r) ⊎ (get c.updates j ≡ some r)
        → value r ≡ some v
        → c.cleared ≡ false
        → contains c.deletes k ≡ false
        → get c.updates k ≡ none
        → committed_view committed name k ≡ some s
        → value s ≡ some v
        → j ≡ k
    staged_and_kept j k v r s place qr open_ kept untouched held qs =
        let (passed, entered) = staged_added in
        sym (
          (e.equals_iff k j).0 (
            ground (
              arith,
              taken (committed_view committed name) indexed k v s j held qs,
              passed v j (entered j v r place qr) open_ (kept_value k v s kept untouched held qs),
            )))

    pub one_key :
        (j k v : V) (r s : R)
        → staged_view committed name c j ≡ some r
        → staged_view committed name c k ≡ some s
        → value r ≡ some v
        → value s ≡ some v
        → j ≡ k
    one_key j k v r s hj hk qr qs = elim (placed_in committed c j r hj) [
      | inl pj ↦ elim (placed_in committed c k s hk) [
        | inl pk ↦ same_entry (staged_added.1 j v r pj qr) (staged_added.1 k v s pk qs)
        | inr (open_, kept, untouched, held) ↦
            staged_and_kept j k v r s pj qr open_ kept untouched held qs
      ]
      | inr (open_, kept, untouched, held) ↦ elim (placed_in committed c k s hk) [
        | inl pk ↦ sym (staged_and_kept k j v s r pk qs open_ kept untouched held qr)
        | inr (_, _, _, held_k) ↦
            committed_unique (committed_view committed name) indexed j k v r s held held_k qr qs
      ]
    ]
      where
        same_entry : get added v ≡ some j → get added v ≡ some k → j ≡ k
        same_entry p q = cc
