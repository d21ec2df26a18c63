-- ===== src/Wal/Torn.antt =====
-- A log that a crash has cut inside its last record.
use masterkeeper.Base.{
  ℕ, zero, suc, ◌+◌, ◌-◌, ◌%◌, ◌^◌, ◌≤◌, ◌<◌, List, [], ◌∷◌, ◌++◌, ◌≡◌, refl, sym, ap, ◌∙◌, length,
  take, All, arith, length-append, length-take, inl, inr, ◌⊎◌,
}
use native.Mathlib.Decide.{dec_lt}
use masterkeeper.Base.Slice.{take-append_add}
use masterkeeper.Base.Int.{signed32-pos, unsigned64}
use masterkeeper.Base.Bytes.{be, from_be, from_be-be, from_be-one, length-be}
use masterkeeper.Base.Result.{ok, err}
use masterkeeper.Wal.Record.{
  WalRecord, IsRecord, wal_magic, checksum, write_record, write_records, header_tail,
}
use masterkeeper.Wal.Reader.{
  eof, unexpected_eof, read_full, Step, stop, fail, short_magic, or_stop, read_payload, read_type,
  read_step, read_loop, read_all_records,
}
use masterkeeper.Wal.RoundTrip.{read_full-be, read_full-append, read_all_records-write}

-- Too few bytes.
read_full_short :
    (n : ℕ) (xs : List ℕ)
    → length xs < n
    → (read_full n xs ≡ eof) ⊎ (read_full n xs ≡ unexpected_eof)
unfolding read_full
read_full_short zero xs h = absurd (omega arith)
read_full_short (suc n) [] h = inl refl
read_full_short (suc n) (x ∷ xs) h = inr (ground arith)

-- Such a field ends the scan at the end of the file.
or_stop_short :
    (n : ℕ) (xs : List ℕ) (f : List ℕ → List ℕ → Step)
    → length xs < n
    → or_stop (read_full n xs) f ≡ stop []
or_stop_short n xs f h = elim (read_full_short n xs h) [
  | inl e ↦ ap (λ r. or_stop r f) e
  | inr e ↦ ap (λ r. or_stop r f) e
]

-- A word cut short ends the scan; a whole one is passed to the rest of it.
module _ (w v : ℕ) (ys : List ℕ) (f : List ℕ → List ℕ → Step) where
  take_word : (n : ℕ) → take (w + n) (be w v ++ ys) ≡ be w v ++ take n ys
  take_word n =
      ap (λ k. take (k + n) (be w v ++ ys)) (sym (length-be w v)) ∙ take-append_add (be w v) ys n

  stops_at_word :
      (n : ℕ)
      → (n < w) ⊎ ((m : ℕ) × (n ≡ w + m) × ((rest : List ℕ) × (f (be w v) (take m ys) ≡ stop rest)))
      → (rest : List ℕ) × (or_stop (read_full w (take n (be w v ++ ys))) f ≡ stop rest)
  stops_at_word n (inl h) = ([], or_stop_short w _ f (omega (arith, length-take n (be w v ++ ys))))
  stops_at_word n (inr (m, e, (rest, g))) = (
    rest,
    ap (λ t. or_stop (read_full w t) f) (ap (λ k. take k (be w v ++ ys)) e ∙ take_word m)
        ∙ ap (λ r. or_stop r f) (read_full-be w v (take m ys))
        ∙ g,
  )

  -- So if every cut behind the word ends the scan, every cut of the word and what follows does.
  stops_in :
      ((m : ℕ) → m < length ys → (rest : List ℕ) × (f (be w v) (take m ys) ≡ stop rest))
      → (n : ℕ) → n < w + length ys
      → (rest : List ℕ) × (or_stop (read_full w (take n (be w v ++ ys))) f ≡ stop rest)
  stops_in later n h = elim (dec_lt n w) [
    | yes p ↦ stops_at_word n (inl p)
    | no p ↦ stops_at_word n (inr (n - w, omega arith, later (n - w) (omega arith)))
  ]

module _ (crc : List ℕ → ℕ) (crc_lt : (bytes : List ℕ) → crc bytes < 2 ^ 32) (r : WalRecord)
    (valid : IsRecord r) where
  abbrev id : ℕ
  id = unsigned64 r.transaction_id

  abbrev gen : ℕ
  gen = unsigned64 r.generation

  abbrev size : ℕ
  size = length r.payload % 2 ^ 32

  cut_payload :
      (type i g sum m : ℕ)
      → m < length r.payload
      → (rest : List ℕ) × (read_payload crc type i g (from_be (be 4 size)) sum (take m r.payload)
          ≡ stop rest)
  unfolding read_payload
  cut_payload type i g sum m h = (
    take m r.payload,
    ground (
      arith,
      valid.fits,
      from_be-be 4 size (omega arith),
      signed32-pos (length r.payload),
      length-take m r.payload,
    ),
  )

  -- The continuations of the scan behind each field, and the bytes that it reads there.
  abbrev at_sum : List ℕ → List ℕ → List ℕ → List ℕ → List ℕ → Step
  at_sum i g z sum = read_payload crc r.type (from_be i) (from_be g) (from_be z) (from_be sum)

  abbrev at_size : List ℕ → List ℕ → List ℕ → List ℕ → Step
  at_size i g z input = or_stop (read_full 4 input) (at_sum i g z)

  abbrev at_gen : List ℕ → List ℕ → List ℕ → Step
  at_gen i g input = or_stop (read_full 4 input) (at_size i g)

  abbrev at_id : List ℕ → List ℕ → Step
  at_id i input = or_stop (read_full 8 input) (at_gen i)

  abbrev sum_bytes : List ℕ
  sum_bytes = be 4 (checksum crc r) ++ r.payload

  abbrev size_bytes : List ℕ
  size_bytes = be 4 size ++ sum_bytes

  abbrev gen_bytes : List ℕ
  gen_bytes = be 8 gen ++ size_bytes

  abbrev id_bytes : List ℕ
  id_bytes = be 8 id ++ gen_bytes

  abbrev Stops : Step → Type 0
  Stops s = (rest : List ℕ) × (s ≡ stop rest)

  cut_sum :
      (i g : List ℕ) (n : ℕ)
      → n < 4 + length r.payload
      → Stops (at_size i g (be 4 size) (take n sum_bytes))
  cut_sum i g =
      stops_in 4 (checksum crc r) r.payload (at_sum i g (be 4 size))
        (cut_payload r.type (from_be i) (from_be g) _)

  length-words : (w v : ℕ) (ys : List ℕ) → length (be w v ++ ys) ≡ w + length ys
  length-words w v ys = length-append (be w v) ys ∙ ap (λ k. k + length ys) (length-be w v)

  cut_size :
      (i g : List ℕ) (n : ℕ) → n < 4 + length sum_bytes → Stops (at_gen i g (take n size_bytes))
  cut_size i g =
      stops_in 4 size sum_bytes (at_size i g)
        (λ m h. cut_sum i g m (omega (arith, length-words 4 (checksum crc r) r.payload)))

  cut_gen : (i : List ℕ) (n : ℕ) → n < 8 + length size_bytes → Stops (at_id i (take n gen_bytes))
  cut_gen i =
      stops_in 8 gen size_bytes (at_gen i)
        (λ m h. cut_size i (be 8 gen) m (omega (arith, length-words 4 size sum_bytes)))

  cut_id :
      (n : ℕ) → n < 8 + length gen_bytes → Stops (or_stop (read_full 8 (take n id_bytes)) at_id)
  cut_id =
      stops_in 8 id gen_bytes at_id
        (λ m h. cut_gen (be 8 id) m (omega (arith, length-words 8 gen size_bytes)))

  read_type-cut :
      (n : ℕ) → n < 8 + length gen_bytes → Stops (read_type crc (r.type ∷ []) (take n id_bytes))
  unfolding read_type
  read_type-cut n h =
      let (rest, e) = cut_id n h in (rest, ground (arith, valid.known, from_be-one r.type, e))

  -- A cut behind the magic number and before the end of the record ends the scan.
  cut_header :
      (n : ℕ)
      → n < length (header_tail crc r)
      → Stops (or_stop (read_full 1 (take n (header_tail crc r))) (read_type crc))
  cut_header zero h = ([], or_stop_short 1 [] (read_type crc) (omega arith))
  cut_header (suc n) h =
      let (rest, e) = read_type-cut n (omega (arith, length-words 8 id gen_bytes)) in
      (
        rest,
        ap (λ x. or_stop x (read_type crc))
              (read_full-append 1 (r.type ∷ []) (take n id_bytes) (omega arith))
            ∙ e,
      )

  cut_record :
      (n : ℕ)
      → n < length (write_record crc r)
      → (n ≡ 0) ⊎ (4 ≤ n)
      → Stops (read_step crc (take n (write_record crc r)))
  unfolding read_step write_record read_full
  cut_record n h (inl e) = ([], ap (λ k. read_step crc (take k (write_record crc r))) e)
  cut_record n h (inr long) =
      let m = n - 4 in
      let (rest, e) = cut_header m (omega (arith, length-words 4 wal_magic (header_tail crc r))) in
      (
        rest,
        ap (read_step crc) (
              ap (λ k. take k (be 4 wal_magic ++ header_tail crc r)) n_eq
              ∙ take_word 4 wal_magic (header_tail crc r) (or_stop_f) m)
            ∙ ground (
              arith,
              read_full-be 4 wal_magic (take m (header_tail crc r)),
              from_be-be 4 wal_magic (omega arith),
              e,
            ),
      )
    where
      n_eq : n ≡ 4 + (n - 4)
      n_eq = omega arith

      or_stop_f : List ℕ → List ℕ → Step
      or_stop_f bytes rest = stop rest

  short_record :
      (n : ℕ) → 0 < n → n < 4 → read_step crc (take n (write_record crc r)) ≡ fail short_magic
  unfolding read_step write_record read_full
  short_record n low high = ground (
    arith,
    length-take n (be 4 wal_magic ++ header_tail crc r),
    length-words 4 wal_magic (header_tail crc r),
  )

  module _ (rs : List WalRecord) (valids : All IsRecord rs) where
    -- Where checksums fit 32 bits: if a crash leaves whole well-formed records and then a proper part of
    -- one more, cut anywhere but inside its magic number, `ReadAllRecords` returns the whole records and no error.
    pub read_all_records-torn :
        (n : ℕ)
        → n < length (write_record crc r)
        → (n ≡ 0) ⊎ (4 ≤ n)
        → (rest : List ℕ) × (read_all_records crc
              (write_records crc rs ++ take n (write_record crc r))
            ≡ ok (rs, rest))
    unfolding read_loop
    read_all_records-torn n h at =
        let (k, e) = read_all_records-write crc crc_lt rs (take n (write_record crc r)) valids in
        let (rest, stops) = cut_record n h at in (rest, e ∙ rw (stops, read_loop))

    -- Where checksums fit 32 bits: if a crash leaves whole well-formed records and then the first one to
    -- three bytes of one more, `ReadAllRecords` returns an error, and none of the whole records.
    pub read_all_records-torn_magic :
        (n : ℕ)
        → 0 < n
        → n < 4
        → read_all_records crc (write_records crc rs ++ take n (write_record crc r))
          ≡ err short_magic
    unfolding read_loop
    read_all_records-torn_magic n low high =
        let (k, e) = read_all_records-write crc crc_lt rs (take n (write_record crc r)) valids in
        e ∙ rw (short_record n low high, read_loop)
