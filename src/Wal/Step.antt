-- ===== src/Wal/Step.antt =====
-- One round of `ReadAllRecords`: a record that it takes stands at the start of its input.
use masterkeeper.Base.{
  ℕ, ◌%◌, ◌^◌, ◌≤◌, ◌<◌, List, [], ◌∷◌, ◌++◌, ◌≡◌, refl, sym, ap, ◌∙◌, length, All, arith,
}
use mathlib.Core.Path.{subst}
use mathlib.Core.List.{append_assoc}
use masterkeeper.Base.Int.{unsigned64}
use masterkeeper.Base.Bytes.{be, from_be, be-from_be, from_be-lt, IsByte}
use masterkeeper.Wal.Record.{WalRecord, IsRecord, wal_magic, checksum, write_record, header_tail}
use masterkeeper.Wal.Reader.{
  Read, eof, unexpected_eof, got, read_full, next, or_stop, read_payload, read_type, read_step,
}
use masterkeeper.Wal.Sound.{All-append, read_full-got, or_stop-next, Taken, read_payload-next}

module _ (crc : List ℕ → ℕ) where
  -- A step that takes a record takes the bytes of `writeRecordToBuffer` for it.
  pub record Written (input : List ℕ) (r : WalRecord) (rest : List ℕ) : Type 0 where
    pub valid : IsRecord r
    pub split : input ≡ write_record crc r ++ rest
    pub rest_bytes : All IsByte rest

  -- The words of the header are the bytes that were read.
  word : (w : ℕ) (bs : List ℕ) → All IsByte bs → length bs ≡ w → be w (from_be bs) ≡ bs
  word w bs h e = ap (λ k. be k (from_be bs)) (sym e) ∙ be-from_be bs h

  word-lt : (w : ℕ) (bs : List ℕ) → All IsByte bs → length bs ≡ w → from_be bs < 256 ^ w
  word-lt w bs h e = subst (λ k. from_be bs < 256 ^ k) e (from_be-lt bs h)

  Taken→header :
      (type : ℕ) (i g z s input : List ℕ) (r : WalRecord) (rest : List ℕ)
      → be 8 (from_be i) ≡ i
      → be 8 (from_be g) ≡ g
      → be 4 (from_be z) ≡ z
      → be 4 (from_be s) ≡ s
      → Taken crc type (from_be i) (from_be g) (from_be z) (from_be s) input r rest
      → type ∷ (i ++ (g ++ (z ++ (s ++ input)))) ≡ header_tail crc r ++ rest
  Taken→header type i g z s input r rest ei eg ez es t =
      ap (λ t. type ∷ (i ++ (g ++ (z ++ (s ++ t))))) t.split ∙ sym full
    where
      ids : be 8 (unsigned64 r.transaction_id) ≡ i
      ids = ap (be 8) t.same_id ∙ ei

      gens : be 8 (unsigned64 r.generation) ≡ g
      gens = ap (be 8) t.same_gen ∙ eg

      sizes : be 4 (length r.payload % 2 ^ 32) ≡ z
      sizes = ap (be 4) (omega (arith, t.same_size, t.fits)) ∙ ez

      same : checksum crc r ≡ from_be s
      same = rw (t.same_type, t.same_id, t.same_gen) t.summed

      sums : be 4 (checksum crc r) ≡ s
      sums = ap (be 4) same ∙ es

      full : header_tail crc r ++ rest ≡ type ∷ (i ++ (g ++ (z ++ (s ++ (r.payload ++ rest)))))
      full = rw (sums, sizes, ids, gens, t.same_type) (simp append_assoc)

  -- The fields behind the operation, one after another.
  Fields : ℕ → List ℕ → WalRecord → List ℕ → Type 0
  Fields type input r rest =
      IsRecord r × (type ∷ input ≡ header_tail crc r ++ rest) × All IsByte rest

  read_type-next :
      (bytes input : List ℕ) (r : WalRecord) (rest : List ℕ)
      → All IsByte input
      → read_type crc bytes input ≡ next r rest
      → Fields (from_be bytes) input r rest
  unfolding read_type Fields
  read_type-next bytes input r rest hb e =
      let (known, e1) = known_type in
      let (i, r2, split1, len1, e2, hi, h2) = or_stop-next 8 input _ r rest e1 hb in
      let (g, r3, split2, len2, e3, hg, h3) = or_stop-next 8 r2 _ r rest e2 h2 in
      let (z, r4, split3, len3, e4, hz, h4) = or_stop-next 4 r3 _ r rest e3 h3 in
      let (s, r5, split4, len4, e5, hs, h5) = or_stop-next 4 r4 _ r rest e4 h4 in
      let t =
        read_payload-next crc (from_be bytes) (from_be i) (from_be g) (from_be z) (from_be s) r5
          (omega (arith, word-lt 8 i hi len1)) (omega (arith, word-lt 8 g hg len2))
          (omega (arith, word-lt 4 z hz len3)) r rest h5 e5 in
      (
        record {
          known = omega (arith, t.same_type);
          id = t.in_range.0;
          gen = t.in_range.1;
          bytes = t.payload_bytes;
          fits = omega (arith, t.same_size, t.fits);
        },
        rw (split1, split2, split3, split4)
            (Taken→header (from_be bytes) i g z s r5 r rest (word 8 i hi len1) (word 8 g hg len2)
              (word 4 z hz len3) (word 4 s hs len4) t),
        t.rest_bytes,
      )
    where
      known_type :
          (from_be bytes ≤ 11)
          × (or_stop (read_full 8 input) (λ id r2. or_stop (read_full 8 r2) λ gen r3.
                or_stop (read_full 4 r3) λ size r4. or_stop (read_full 4 r4) λ sum r5.
                  read_payload crc
                    (from_be bytes)
                    (from_be id)
                    (from_be gen)
                    (from_be size)
                    (from_be sum)
                    r5)
              ≡ next r rest)
      known_type = ground (arith, e)

  magic_bytes :
      (m : List ℕ) → All IsByte m → length m ≡ 4 → from_be m ≡ wal_magic → m ≡ be 4 wal_magic
  magic_bytes m h len e = sym (word 4 m h len) ∙ ap (be 4) e

  one_byte : (bs : List ℕ) → All IsByte bs → length bs ≡ 1 → bs ≡ from_be bs ∷ []
  unfolding be
  one_byte bs h len = sym (word 1 bs h len) ∙ ap (λ b. b ∷ []) (omega (arith, word-lt 1 bs h len))

  -- What a step behind the magic number takes.
  behind_magic :
      (m input : List ℕ) (r : WalRecord) (rest : List ℕ)
      → m ≡ be 4 wal_magic
      → All IsByte input
      → or_stop (read_full 1 input) (read_type crc) ≡ next r rest
      → Written (m ++ input) r rest
  unfolding Fields write_record
  behind_magic m input r rest em hb e =
      let (t, more, split, len, e1, ht, hm) = or_stop-next 1 input (read_type crc) r rest e hb in
      let (valid, fields, rest_bytes) = read_type-next t more r rest hm e1 in
      record {
        valid = valid;
        split =
            rw (em, split, one_byte t ht len)
              (ap (λ x. be 4 wal_magic ++ x) fields
                ∙ sym (append_assoc (be 4 wal_magic) (header_tail crc r) rest));
        rest_bytes = rest_bytes;
      }

  pub read_step-next :
      (input : List ℕ) (r : WalRecord) (rest : List ℕ)
      → All IsByte input
      → read_step crc input ≡ next r rest
      → Written input r rest
  unfolding read_step
  read_step-next input r rest hb e = go (read_full 4 input) refl
    where
      go : (x : Read) → read_full 4 input ≡ x → Written input r rest
      go eof p = absurd (ground (arith, p, e))
      go unexpected_eof p = absurd (ground (arith, p, e))
      go (got m more) p =
          let (split, len) = read_full-got 4 input m more p in
          let (hm, hr) = All-append m more (subst (All IsByte) split hb) in
          let known : (from_be m ≡ wal_magic)
              × (or_stop (read_full 1 more) (read_type crc) ≡ next r rest) =
            ground (arith, p, e) in
          subst (λ x. Written x r rest) (sym split)
            (behind_magic m more r rest (magic_bytes m hm len known.0) hr known.1)
