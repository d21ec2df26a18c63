-- ===== src/Database/Recovery.antt =====
-- db.go, `recover`: which transactions of the log are replayed, and in which order.
use masterkeeper.Base.{
  ℕ, Bool, true, false, not, ◌&&◌, ◌||◌, ◌↔◌, none, some, List, [], ◌∷◌, ◌++◌, ◌≡◌, refl, ap, ◌∙◌,
  nat_eqb, ltb, if◌then◌else◌, Comparable, ◌==◌, arith, nat_eqb_iff,
}
use masterkeeper.Base.Dict.{Dict, get, put, contains, get-put}
use masterkeeper.Base.Int.{ℤ, pos, negsuc}
use masterkeeper.Wal.Record.{WalRecord, op_commit_transaction, op_rollback_transaction}

abbrev pub int_eqb : ℤ → ℤ → Bool
int_eqb (pos a) (pos b) = nat_eqb a b
int_eqb (negsuc a) (negsuc b) = nat_eqb a b
int_eqb _ _ = false

int_eqb_iff : (a b : ℤ) → (int_eqb a b ≡ true) ↔ (a ≡ b)
int_eqb_iff (pos a) (pos b) = ground (arith, nat_eqb_iff a b)
int_eqb_iff (pos a) (negsuc b) = ground arith
int_eqb_iff (negsuc a) (pos b) = ground arith
int_eqb_iff (negsuc a) (negsuc b) = ground (arith, nat_eqb_iff a b)

instance pub int_eq : Comparable ℤ
int_eq = record { equals = int_eqb; equals_iff = int_eqb_iff }

abbrev pub int_ltb : ℤ → ℤ → Bool
int_ltb (pos a) (pos b) = ltb a b
int_ltb (pos a) (negsuc b) = false
int_ltb (negsuc a) (pos b) = true
int_ltb (negsuc a) (negsuc b) = ltb b a

-- What the first loop of `recover` collects.
pub record Groups : Type 0 where
  pub transaction_groups : Dict ℤ (List WalRecord)
  pub committed_transaction_ids : List ℤ
  pub rolled_back_transaction_ids : Dict ℤ (Unit {0})

abbrev pub no_groups : Groups
no_groups = record {
  transaction_groups = [];
  committed_transaction_ids = [];
  rolled_back_transaction_ids = [];
}

abbrev pub records_of : Dict ℤ (List WalRecord) → ℤ → List WalRecord
records_of groups id = elim (get groups id) [ none ↦ [] | some rs ↦ rs ]

unfoldable pub collect_record : Groups → WalRecord → Groups
collect_record g r =
    let groups =
      put g.transaction_groups r.transaction_id
        (records_of g.transaction_groups r.transaction_id ++ r ∷ []) in
    if nat_eqb r.type op_commit_transaction
    then record g {
      transaction_groups = groups;
      committed_transaction_ids = g.committed_transaction_ids ++ r.transaction_id ∷ [];
    }
    else if nat_eqb r.type op_rollback_transaction
    then record g {
      transaction_groups = groups;
      rolled_back_transaction_ids = put g.rolled_back_transaction_ids r.transaction_id tt;
    }
    else record g { transaction_groups = groups }

unfoldable pub collect : Groups → List WalRecord → Groups
collect g [] = g
collect g (r ∷ rs) = collect (collect_record g r) rs

unfoldable pub drop_rolled_back : Dict ℤ (Unit {0}) → List ℤ → List ℤ
drop_rolled_back rolled [] = []
drop_rolled_back rolled (id ∷ ids) =
    let rest = drop_rolled_back rolled ids in if contains rolled id then rest else id ∷ rest

-- The generation that a transaction is sorted by: that of its first record.
unfoldable pub generation_of : Dict ℤ (List WalRecord) → ℤ → ℤ
generation_of groups id = elim (records_of groups id) [ [] ↦ pos 0 | r ∷ rs ↦ r.generation ]

-- `sort` is `sort.Slice` with a comparison.
unfoldable pub active_commits : ((ℤ → ℤ → Bool) → List ℤ → List ℤ) → List WalRecord → List ℤ
active_commits sort rs =
    let g = collect no_groups rs in
    sort
      (λ left right.
        int_ltb (generation_of g.transaction_groups left)
          (generation_of g.transaction_groups right))
      (drop_rolled_back g.rolled_back_transaction_ids g.committed_transaction_ids)

abbrev pub elem : ℤ → List ℤ → Bool
elem id [] = false
elem id (x ∷ xs) = (x == id) || elem id xs

-- Is there a record of this operation and transaction?
abbrev pub has : ℕ → ℤ → List WalRecord → Bool
has op id [] = false
has op id (r ∷ rs) = (nat_eqb r.type op && (r.transaction_id == id)) || has op id rs

elem-snoc : (id x : ℤ) (xs : List ℤ) → elem id (xs ++ x ∷ []) ≡ (elem id xs || (x == id))
elem-snoc id x [] = ground arith
elem-snoc id x (y ∷ ys) = ground (arith, elem-snoc id x ys)

committed-collect :
    (id : ℤ) (rs : List WalRecord) (g : Groups)
    → elem id (collect g rs).committed_transaction_ids
      ≡ (elem id g.committed_transaction_ids || has op_commit_transaction id rs)
unfolding collect collect_record
committed-collect id [] g = ground arith
committed-collect id (r ∷ rs) g = ground (
  arith,
  committed-collect id rs (collect_record g r),
  elem-snoc id r.transaction_id g.committed_transaction_ids,
)

rolled-collect :
    (id : ℤ) (rs : List WalRecord) (g : Groups)
    → contains (collect g rs).rolled_back_transaction_ids id
      ≡ (contains g.rolled_back_transaction_ids id || has op_rollback_transaction id rs)
unfolding collect collect_record
rolled-collect id [] g = ground arith
rolled-collect id (r ∷ rs) g = ground (
  arith,
  rolled-collect id rs (collect_record g r),
  get-put g.rolled_back_transaction_ids r.transaction_id tt id,
)

kept :
    (id x : ℤ) (rest : List ℤ) (b : Bool)
    → elem id (if b then rest else x ∷ rest) ≡ ((not b && (x == id)) || elem id rest)
kept id x rest true = refl
kept id x rest false = refl

regroup :
    (cx ci e q : Bool)
    → (q ≡ true → cx ≡ ci)
    → ((not cx && q) || (e && not ci)) ≡ ((q || e) && not ci)
regroup cx ci e q same = ground (arith, same)

elem-drop_rolled_back :
    (rolled : Dict ℤ (Unit {0})) (id : ℤ) (ids : List ℤ)
    → elem id (drop_rolled_back rolled ids) ≡ (elem id ids && not (contains rolled id))
unfolding drop_rolled_back int_eq
elem-drop_rolled_back rolled id [] = ground arith
elem-drop_rolled_back rolled id (x ∷ xs) =
    kept id x (drop_rolled_back rolled xs) (contains rolled x)
    ∙ ap (λ e. (not (contains rolled x) && (x == id)) || e) (elem-drop_rolled_back rolled id xs)
    ∙ regroup (contains rolled x) (contains rolled id) (elem id xs) (x == id)
        (λ same. ap (λ y. contains rolled y) ((int_eqb_iff x id).0 same))

-- A transaction is replayed exactly when the log has a commit record of it and no rollback record;
-- of the sort it is used that it keeps the elements.
pub elem-active_commits :
    (sort : (ℤ → ℤ → Bool) → List ℤ → List ℤ)
    → ((less : ℤ → ℤ → Bool) (ids : List ℤ) (id : ℤ) → elem id (sort less ids) ≡ elem id ids)
    → (rs : List WalRecord) (id : ℤ)
    → elem id (active_commits sort rs)
      ≡ (has op_commit_transaction id rs && not (has op_rollback_transaction id rs))
unfolding active_commits get
elem-active_commits sort keeps rs id =
    let g = collect no_groups rs in
    keeps _ _ id
    ∙ elem-drop_rolled_back g.rolled_back_transaction_ids id g.committed_transaction_ids
    ∙ rw (committed-collect id rs no_groups, rolled-collect id rs no_groups)
