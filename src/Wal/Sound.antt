-- ===== src/Wal/Sound.antt =====
-- `ReadAllRecords`: what is known of the payload that a round takes.
use masterkeeper.Base.{
  ℕ, zero, suc, ◌*◌, ◌^◌, ◌≤◌, ◌<◌, List, [], ◌∷◌, ◌++◌, ◌≡◌, refl, sym, ap, ◌∙◌, length, All,
  arith, length-take, leb, inl, inr, Bool-cases, nat_eqb,
}
use mathlib.Core.Path.{subst, subst₂}
use masterkeeper.Base.Slice.{take-append-drop}
use masterkeeper.Base.Int.{
  ℤ, pos, negsuc, signed32, signed64, signed32-eq-pos, unsigned64, unsigned64-signed64,
  signed64-IsInt64, IsInt64,
}
use masterkeeper.Base.Bytes.{IsByte}
use masterkeeper.Wal.Record.{WalRecord, hashed}
use masterkeeper.Wal.Reader.{
  Read, eof, unexpected_eof, got, read_full, Step, next, or_stop, check_payload, read_payload,
}

pub All-append : (xs ys : List ℕ) → All IsByte (xs ++ ys) → All IsByte xs × All IsByte ys
All-append [] ys h = (tt, h)
All-append (x ∷ xs) ys h = let (a, b) = All-append xs ys h.1 in ((h.0, a), b)

pub read_full-got :
    (n : ℕ) (input bs rest : List ℕ)
    → read_full n input ≡ got bs rest
    → (input ≡ bs ++ rest) × (length bs ≡ n)
unfolding read_full
read_full-got zero input bs rest e = ground arith
read_full-got (suc n) [] bs rest e = absurd (cc)
read_full-got (suc n) (x ∷ xs) bs rest e = elim (Bool-cases (leb (suc n) (length (x ∷ xs)))) [
  | inl fits ↦ (
    sym (take-append-drop (suc n) (x ∷ xs)) ∙ ground arith,
    ground (arith, length-take (suc n) (x ∷ xs)),
  )
  | inr short ↦ ground arith
]

-- A field behind which a record was found was there in full.
pub or_stop-next :
    (n : ℕ) (input : List ℕ) (f : List ℕ → List ℕ → Step) (r : WalRecord) (rest : List ℕ)
    → or_stop (read_full n input) f ≡ next r rest
    → All IsByte input
    → (bs : List ℕ) × (more : List ℕ) × (input ≡ bs ++ more)
      × (length bs ≡ n)
      × (f bs more ≡ next r rest)
      × All IsByte bs
      × All IsByte more
or_stop-next n input f r rest e bytes = go (read_full n input) refl
  where
    go :
        (x : Read)
        → read_full n input ≡ x
        → (bs : List ℕ) × (more : List ℕ) × (input ≡ bs ++ more)
          × (length bs ≡ n)
          × (f bs more ≡ next r rest)
          × All IsByte bs
          × All IsByte more
    go eof p = absurd (cc (ap (λ x. or_stop x f) p))
    go unexpected_eof p = absurd (cc (ap (λ x. or_stop x f) p))
    go (got bs more) p =
        let (split, n_eq) = read_full-got n input bs more p in
        let (hb, hm) = All-append bs more (subst (All IsByte) split bytes) in
        (bs, more, split, n_eq, sym (ap (λ x. or_stop x f) p) ∙ e, hb, hm)

module _ (crc : List ℕ → ℕ) where
  -- What is known of a record that the scan took, in terms of the words that it read.
  pub record Taken (type id gen size sum : ℕ) (input : List ℕ) (r : WalRecord) (rest : List ℕ)
      : Type 0 where
    pub same_type : r.type ≡ type
    pub same_id : unsigned64 r.transaction_id ≡ id
    pub same_gen : unsigned64 r.generation ≡ gen
    pub in_range : IsInt64 r.transaction_id × IsInt64 r.generation
    pub same_size : length r.payload ≡ size
    pub fits : size ≤ 1024 * 1024 * 64
    pub summed : crc (hashed type id gen r.payload) ≡ sum
    pub split : input ≡ r.payload ++ rest
    pub payload_bytes : All IsByte r.payload
    pub rest_bytes : All IsByte rest

  check_payload-next :
      (type id gen sum : ℕ) (payload more : List ℕ) (r : WalRecord) (rest : List ℕ)
      → check_payload crc type id gen sum payload more ≡ next r rest
      → (r ≡ record {
        type = type;
        transaction_id = signed64 id;
        generation = signed64 gen;
        payload = payload;
      })
        × (more ≡ rest)
        × (crc (hashed type id gen payload) ≡ sum)
  unfolding check_payload
  check_payload-next type id gen sum payload more r rest e =
      elim (Bool-cases (nat_eqb (crc (hashed type id gen payload)) sum)) [
        | inl same ↦ ground arith
        | inr differ ↦ ground arith
      ]

  abbrev taken : ℕ → ℕ → ℕ → List ℕ → WalRecord
  taken type id gen payload = record {
    type = type;
    transaction_id = signed64 id;
    generation = signed64 gen;
    payload = payload;
  }

  module _ (type id gen size sum : ℕ) (input : List ℕ) (hi : id < 2 ^ 64) (hg : gen < 2 ^ 64)
      (hs : size < 2 ^ 32) where
    taken-Taken :
        (n : ℕ) (bs more : List ℕ)
        → signed32 size ≡ pos n
        → n ≤ 1024 * 1024 * 64
        → input ≡ bs ++ more
        → length bs ≡ n
        → crc (hashed type id gen bs) ≡ sum
        → All IsByte bs
        → All IsByte more
        → Taken type id gen size sum input (taken type id gen bs) more
    taken-Taken n bs more p small split n_eq summed hb hm =
        let size_eq : size ≡ n = signed32-eq-pos size n hs p in
        record {
          same_type = refl;
          same_id = unsigned64-signed64 id hi;
          same_gen = unsigned64-signed64 gen hg;
          in_range = (signed64-IsInt64 id, signed64-IsInt64 gen);
          same_size = n_eq ∙ sym size_eq;
          fits = omega arith;
          summed = summed;
          split = split;
          payload_bytes = hb;
          rest_bytes = hm;
        }

    accepted_size :
        (n : ℕ) (r : WalRecord) (rest : List ℕ)
        → signed32 size ≡ pos n
        → read_payload crc type id gen size sum input ≡ next r rest
        → (n ≤ 1024 * 1024 * 64)
          × (or_stop (read_full n input) (check_payload crc type id gen sum) ≡ next r rest)
    unfolding read_payload
    accepted_size n r rest p e = ground (arith, p)

    refused_size :
        (n : ℕ) (r : WalRecord) (rest : List ℕ)
        → signed32 size ≡ negsuc n
        → read_payload crc type id gen size sum input ≡ next r rest
        → ⊥
    unfolding read_payload
    refused_size n r rest p e = ground (arith, p)

    pub read_payload-next :
        (r : WalRecord) (rest : List ℕ)
        → All IsByte input
        → read_payload crc type id gen size sum input ≡ next r rest
        → Taken type id gen size sum input r rest
    read_payload-next r rest bytes e = go (signed32 size) refl
      where
        go : (z : ℤ) → signed32 size ≡ z → Taken type id gen size sum input r rest
        go (negsuc n) p = absurd (refused_size n r rest p e)
        go (pos n) p =
            let (small, found) = accepted_size n r rest p e in
            let (bs, more, split, n_eq, checked, hb, hm) =
              or_stop-next n input (check_payload crc type id gen sum) r rest found bytes in
            let (r_eq, rest_eq, summed) =
              check_payload-next type id gen sum bs more r rest checked in
            subst₂ (λ x y. Taken type id gen size sum input x y) (sym r_eq) rest_eq
              (taken-Taken n bs more p small split n_eq summed hb hm)
