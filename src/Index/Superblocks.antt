-- ===== src/Index/Superblocks.antt =====
-- The two superblocks: what is written is read back, and a commit switches from one to the other.
use masterkeeper.Base.{
  ℕ, zero, suc, ◌*◌, ◌^◌, ◌≤◌, ◌<◌, true, List, ◌≡◌, ◌≢◌, refl, sym, ap, ◌∙◌, length, arith, leb,
  if◌then◌else◌, nat_eqb, ◌⊎◌, inl, inr,
}
use masterkeeper.Base.Bytes.{be, from_be-be}
use masterkeeper.Base.Result.{Result, ok, err}
use masterkeeper.Index.Page.{
  Superblock, Error, serialize_superblock, deserialize_superblock, field, index_page_size,
  superblock_magic, write_page, read_superblock, choose_superblock, active_superblock,
  update_checksum, put_checksum,
}
use masterkeeper.Index.Checksum.{read_page-write_page, read_page-write_page_other}

-- The page that `writeNewStateLocked` writes its superblock to, by what pages 0 and 1 hold.
unfoldable pub target_page : Result Error Superblock → Result Error Superblock → ℕ
target_page (err x) b = 0
target_page (ok a) (err y) = 1
target_page (ok a) (ok b) = if leb a.generation b.generation then 0 else 1

pub record IsSuperblock (s : Superblock) : Type 0 where
  pub magic : s.magic ≡ superblock_magic
  pub version : s.version < 2 ^ 16
  pub page_size : s.page_size < 2 ^ 32
  pub generation : s.generation < 2 ^ 64
  pub catalog_root_page_id : s.catalog_root_page_id < 2 ^ 64
  pub next_page_id : s.next_page_id < 2 ^ 64

-- A superblock is read back with its checksum filled in.
abbrev pub with_checksum : ℕ → Superblock → Superblock
with_checksum sum s = record s { checksum = sum }

module _ (s : Superblock) (valid : IsSuperblock s) (sum : ℕ) (sum_lt : sum < 2 ^ 32) where
  abbrev page : List ℕ
  page = put_checksum sum (serialize_superblock s)

  words :
      (field 0 4 page ≡ s.magic)
      × (field 4 2 page ≡ s.version)
      × (field 6 4 page ≡ s.page_size)
      × (field 10 8 page ≡ s.generation)
      × (field 18 8 page ≡ s.catalog_root_page_id)
      × (field 26 8 page ≡ s.next_page_id)
      × (field 38 4 page ≡ sum)
  unfolding serialize_superblock be
  words = (
    from_be-be 4 s.magic (omega (arith, valid.magic)),
    from_be-be 2 s.version (omega (arith, valid.version)),
    from_be-be 4 s.page_size (omega (arith, valid.page_size)),
    from_be-be 8 s.generation (omega (arith, valid.generation)),
    from_be-be 8 s.catalog_root_page_id (omega (arith, valid.catalog_root_page_id)),
    from_be-be 8 s.next_page_id (omega (arith, valid.next_page_id)),
    from_be-be 4 sum (omega (arith, sum_lt)),
  )

  length-page : nat_eqb (length page) index_page_size ≡ true
  unfolding serialize_superblock be
  length-page = refl

  deserialize_superblock-serialize : deserialize_superblock page ≡ ok (with_checksum sum s)
  unfolding deserialize_superblock
  deserialize_superblock-serialize =
      rw (length-page, words.0, words.1, words.2, words.3, words.4, words.5, words.6, valid.magic)

-- The other one of the two pages.
abbrev pub other_page : ℕ → ℕ
other_page t = if nat_eqb t 0 then 1 else 0

other_page-le : (t : ℕ) → other_page t ≤ 1
other_page-le t = ground arith

other_page-ne : (t : ℕ) → t ≢ other_page t
other_page-ne t e = ground arith

length-serialize_superblock : (s : Superblock) → length (serialize_superblock s) ≡ index_page_size
unfolding serialize_superblock be
length-serialize_superblock s = refl

module _ (crc : List ℕ → ℕ) where
  abbrev pub target_of : List ℕ → ℕ
  target_of file = target_page (read_superblock crc file 0) (read_superblock crc file 1)

  choose_torn :
      (a b a' b' : Result Error Superblock) (t : ℕ) (x : Error)
      → t ≡ target_page a b
      → (if nat_eqb t 0 then a' else b') ≡ err x
      → (if nat_eqb t 0 then b' else a') ≡ (if nat_eqb t 0 then b else a)
      → ((p q : Superblock) → a ≡ ok p → b ≡ ok q → p.generation ≢ q.generation)
      → choose_superblock a' b' ≡ choose_superblock a b
  unfolding target_page choose_superblock
  choose_torn (err y) (err z) a' b' t x e torn same apart = ground (arith, e, torn, same)
  choose_torn (err y) (ok q) a' b' t x e torn same apart = ground (arith, e, torn, same)
  choose_torn (ok p) (err z) a' b' t x e torn same apart = ground (arith, e, torn, same)
  choose_torn (ok p) (ok q) a' b' t x e torn same apart =
      ground (arith, e, torn, same, apart p q refl refl)

  choose_new :
      (a b a' b' : Result Error Superblock) (t : ℕ) (s : Superblock)
      → t ≡ target_page a b
      → (if nat_eqb t 0 then a' else b') ≡ ok s
      → (if nat_eqb t 0 then b' else a') ≡ (if nat_eqb t 0 then b else a)
      → ((p : Superblock) → a ≡ ok p → p.generation < s.generation)
      → ((p : Superblock) → b ≡ ok p → p.generation < s.generation)
      → choose_superblock a' b' ≡ ok s
  unfolding target_page choose_superblock
  choose_new (err y) (err z) a' b' t s e new same ha hb = ground (arith, e, new, same)
  choose_new (err y) (ok q) a' b' t s e new same ha hb = ground (arith, e, new, same, hb q refl)
  choose_new (ok p) (err z) a' b' t s e new same ha hb = ground (arith, e, new, same, ha p refl)
  choose_new (ok p) (ok q) a' b' t s e new same ha hb =
      ground (arith, e, new, same, ha p refl, hb q refl)

  target-cases : (a b : Result Error Superblock) → (target_page a b ≡ 0) ⊎ (target_page a b ≡ 1)
  unfolding target_page
  target-cases (err x) b = inl refl
  target-cases (ok a) (err y) = inr refl
  target-cases (ok a) (ok b) = ground arith

  -- If the page that a commit writes its superblock to is left unreadable by a crash, and the other
  -- superblock page is as it was, then opening the file finds the superblock that it found before
  -- the commit. The two superblocks of before, where both are valid, have different generations.
  pub active_superblock-torn :
      (file torn : List ℕ) (x : Error)
      → read_superblock crc torn (target_of file) ≡ err x
      → read_superblock crc torn (other_page (target_of file))
        ≡ read_superblock crc file (other_page (target_of file))
      → ((p q : Superblock)
          → read_superblock crc file 0 ≡ ok p
          → read_superblock crc file 1 ≡ ok q
          → p.generation ≢ q.generation)
      → active_superblock crc torn ≡ active_superblock crc file
  unfolding active_superblock
  active_superblock-torn file torn x e same apart =
      elim (target-cases (read_superblock crc file 0) (read_superblock crc file 1)) [
        | inl first ↦ choose_torn _ _ _ _ 0 x (sym first) (rw first at e) (rw first at same) apart
        | inr second ↦
            choose_torn _ _ _ _ 1 x (sym second) (rw second at e) (rw second at same) apart
      ]

  module _ (crc_lt : (bytes : List ℕ) → crc bytes < 2 ^ 32) (file : List ℕ) (s : Superblock)
      (valid : IsSuperblock s) (room : 2 * index_page_size ≤ length file) where
    abbrev sum : ℕ
    sum = crc (put_checksum 0 (serialize_superblock s))

    read_superblock-write_page :
        (t : ℕ)
        → t ≤ 1
        → ((write_page crc file t (serialize_superblock s)).0 ≡ ok tt)
          × (read_superblock crc (write_page crc file t (serialize_superblock s)).1 t
              ≡ ok (with_checksum sum s))
          × (read_superblock crc (write_page crc file t (serialize_superblock s)).1 (other_page t)
              ≡ read_superblock crc file (other_page t))
    unfolding update_checksum
    read_superblock-write_page t low =
        let size = length-serialize_superblock s in
        let (done, reads) =
          read_page-write_page crc crc_lt file t (serialize_superblock s) size (omega arith)
            (omega (arith, room)) in
        let apart =
          read_page-write_page_other crc crc_lt file t (other_page t) (serialize_superblock s) size
            (omega arith) (omega (arith, other_page-le t)) (other_page-ne t) (omega (arith, room))
            (omega (arith, room, other_page-le t)) in
        (
          done,
          ap (λ r. elim r [ err x ↦ err x | ok page ↦ deserialize_superblock page ]) reads
              ∙ deserialize_superblock-serialize s valid sum (crc_lt _),
          ap (λ r. elim r [ err x ↦ err x | ok page ↦ deserialize_superblock page ]) apart,
        )

    switched :
        (t : ℕ)
        → t ≡ target_of file
        → t ≤ 1
        → ((p : Superblock) → read_superblock crc file 0 ≡ ok p → p.generation < s.generation)
        → ((p : Superblock) → read_superblock crc file 1 ≡ ok p → p.generation < s.generation)
        → ((write_page crc file t (serialize_superblock s)).0 ≡ ok tt)
          × (active_superblock crc (write_page crc file t (serialize_superblock s)).1
              ≡ ok (with_checksum sum s))
    unfolding active_superblock
    switched zero e low first second =
        let (done, new, kept) = read_superblock-write_page 0 low in
        (done, choose_new _ _ _ _ 0 (with_checksum sum s) e new kept first second)
    switched (suc zero) e low first second =
        let (done, new, kept) = read_superblock-write_page 1 low in
        (done, choose_new _ _ _ _ 1 (with_checksum sum s) e new kept first second)
    switched (suc (suc t)) e low first second = absurd (omega arith)

    target-le : target_of file ≤ 1
    target-le = elim (target-cases (read_superblock crc file 0) (read_superblock crc file 1)) [
      | inl first ↦ omega (arith, first)
      | inr second ↦ omega (arith, second)
    ]

    -- Where checksums fit 32 bits: where a commit writes a valid superblock of a generation above those of both pages, into a file
    -- that has the two pages, the write succeeds and opening the file finds that superblock.
    pub active_superblock-write_page :
        ((p : Superblock) → read_superblock crc file 0 ≡ ok p → p.generation < s.generation)
        → ((p : Superblock) → read_superblock crc file 1 ≡ ok p → p.generation < s.generation)
        → ((write_page crc file (target_of file) (serialize_superblock s)).0 ≡ ok tt)
          × (active_superblock crc (write_page crc file (target_of file) (serialize_superblock s)).1
              ≡ ok (with_checksum (crc (put_checksum 0 (serialize_superblock s))) s))
    active_superblock-write_page first second =
        switched (target_of file) refl target-le first second
