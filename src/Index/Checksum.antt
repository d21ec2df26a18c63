-- ===== src/Index/Checksum.antt =====
-- The checksum of a page, and a page that is written and read.
use masterkeeper.Base.{
  ℕ, ◌+◌, ◌-◌, ◌*◌, ◌^◌, ◌≤◌, ◌<◌, List, ◌++◌, ◌≡◌, ◌≢◌, refl, sym, ap, ◌∙◌, length, take, drop,
  arith, length-append, length-take, length-drop, take-append, nat_eqb_iff, ◌⊎◌, inl, inr,
}
use mathlib.Core.List.{append_assoc}
use native.Mathlib.Decide.{dec_lt}
use masterkeeper.Base.Int.{pos, signed64-pos}
use masterkeeper.Base.Slice.{
  slice, slice_middle, drop-append_add, drop-drop, slice-append, slice-take,
}
use masterkeeper.Base.Bytes.{be, from_be, from_be-be, length-be}
use masterkeeper.Base.Result.{ok}
use masterkeeper.Storage.{write_at}
use masterkeeper.Storage.File.{write_at-eq}
use masterkeeper.Index.Page.{
  index_page_size, page_offset, put_checksum, update_checksum, validate_checksum, read_page,
  write_page,
}

matches :
    (crc : List ℕ → ℕ) (page : List ℕ) (sum : ℕ)
    → crc (put_checksum 0 page) ≡ sum
    → from_be (slice 38 4 page) ≡ sum
    → validate_checksum crc page ≡ ok tt
unfolding validate_checksum
matches crc page sum e1 e2 = rw (e1, e2, (nat_eqb_iff sum sum).1 refl)

module _ (page : List ℕ) (long : 42 ≤ length page) where
  length-put_checksum : (n : ℕ) → length (put_checksum n page) ≡ length page
  length-put_checksum n = omega (
    arith,
    length-append (take 38 page) (be 4 n ++ drop 42 page),
    length-append (be 4 n) (drop 42 page),
    length-be 4 n,
    length-take 38 page,
    length-drop 42 page,
  )

  -- The second of two checksums put down counts.
  put_checksum-put_checksum : (n m : ℕ) → put_checksum n (put_checksum m page) ≡ put_checksum n page
  put_checksum-put_checksum n m =
      let len : 38 ≡ length (take 38 page) = omega (arith, length-take 38 page) in
      rw (
        ap (λ k. take k (take 38 page ++ (be 4 m ++ drop 42 page))) len
            ∙ take-append (take 38 page) (be 4 m ++ drop 42 page),
        drop-append_add (take 38 page) (be 4 m ++ drop 42 page) 42 4 (omega (arith, len)),
        drop-append_add (be 4 m) (drop 42 page) 4 0 (omega (arith, length-be 4 m)),
      )

  checksum-put_checksum : (n : ℕ) → n < 2 ^ 32 → from_be (slice 38 4 (put_checksum n page)) ≡ n
  checksum-put_checksum n h =
      ap from_be (
        slice_middle 38 4 (take 38 page) (be 4 n) (drop 42 page)
          (omega (arith, length-take 38 page)) (sym (length-be 4 n)))
      ∙ from_be-be 4 n h

  module _ (crc : List ℕ → ℕ) (crc_lt : (bytes : List ℕ) → crc bytes < 2 ^ 32) where
    length-update_checksum : length (update_checksum crc page) ≡ length page
    unfolding update_checksum
    length-update_checksum = length-put_checksum (crc (put_checksum 0 page))

    -- A page that has room for the checksum is valid once it is updated.
    pub validate_checksum-update_checksum : validate_checksum crc (update_checksum crc page) ≡ ok tt
    unfolding update_checksum
    validate_checksum-update_checksum =
        let sum = crc (put_checksum 0 page) in
        matches crc (put_checksum sum page) sum (ap crc (put_checksum-put_checksum 0 sum))
          (checksum-put_checksum sum (crc_lt (put_checksum 0 page)))

-- The pages that lie in the range of `int64`.
pub page_offset-pos : (id : ℕ) → id < 2 ^ 49 → page_offset id ≡ pos (id * index_page_size)
unfolding page_offset
page_offset-pos id h = signed64-pos (id * index_page_size) (omega arith)

-- A slice that a write inside the file does not touch.
pub slice-write_at :
    (f : List ℕ) (off : ℕ) (bytes : List ℕ) (at n : ℕ)
    → off + length bytes ≤ length f
    → (at + n ≤ off) ⊎ (off + length bytes ≤ at)
    → slice at n (write_at f off bytes) ≡ slice at n f
slice-write_at f off bytes at n inside (inl before) =
    ap (slice at n) (write_at-eq f off bytes (omega arith))
    ∙ slice-append at n (take off f) _ (omega (arith, length-take off f))
    ∙ slice-take at n off f before (omega arith)
slice-write_at f off bytes at n inside (inr behind) =
    let e : at ≡ length (take off f ++ bytes) + (at - (off + length bytes)) =
      omega (arith, length-append (take off f) bytes, length-take off f) in
    ap (slice at n)
      (write_at-eq f off bytes (omega arith) ∙ sym (append_assoc (take off f) bytes _))
    ∙ ap (take n) (
        drop-append_add (take off f ++ bytes) (drop (off + length bytes) f) at
          (at - (off + length bytes)) e
        ∙ drop-drop (off + length bytes) (at - (off + length bytes)) f
        ∙ ap (λ k. drop k f) (omega arith))

apart_pages :
    (id other n : ℕ)
    → n ≡ index_page_size
    → id ≢ other
    → (other * index_page_size + index_page_size ≤ id * index_page_size)
      ⊎ (id * index_page_size + n ≤ other * index_page_size)
apart_pages id other n e apart = elim (dec_lt id other) [
  | yes p ↦ inr (omega arith)
  | no p ↦ inl (omega (arith, apart))
]

module _ (crc : List ℕ → ℕ) (crc_lt : (bytes : List ℕ) → crc bytes < 2 ^ 32) where
  -- Where checksums fit 32 bits: below page 2^49, writing a page of 16 KiB inside the file or at its end succeeds, and reading it gives the
  -- page with its checksum filled in.
  pub read_page-write_page :
      (file : List ℕ) (id : ℕ) (page : List ℕ)
      → length page ≡ index_page_size
      → id < 2 ^ 49
      → id * index_page_size ≤ length file
      → ((write_page crc file id page).0 ≡ ok tt)
        × (read_page crc (write_page crc file id page).1 id ≡ ok (update_checksum crc page))
  unfolding read_page write_page
  read_page-write_page file id page size small inside =
      let off = id * index_page_size in
      let n = length-update_checksum page (omega arith) crc crc_lt in
      let kept : slice off index_page_size (write_at file off (update_checksum crc page))
          ≡ update_checksum crc page =
        ap (slice off index_page_size) (write_at-eq file off (update_checksum crc page) inside)
        ∙ slice_middle off index_page_size (take off file) (update_checksum crc page) _
            (omega (arith, length-take off file)) (omega (arith, n)) in
      (
        ground (arith, page_offset-pos id small, size),
        ground (
          arith,
          page_offset-pos id small,
          size,
          kept,
          n,
          validate_checksum-update_checksum page (omega arith) crc crc_lt,
        ),
      )

  -- Where checksums fit 32 bits: writing one page of 16 KiB below page 2^49 leaves what every other page below 2^49 reads, in a file that both lie in.
  pub read_page-write_page_other :
      (file : List ℕ) (id other : ℕ) (page : List ℕ)
      → length page ≡ index_page_size
      → id < 2 ^ 49
      → other < 2 ^ 49
      → id ≢ other
      → id * index_page_size + index_page_size ≤ length file
      → other * index_page_size + index_page_size ≤ length file
      → read_page crc (write_page crc file id page).1 other ≡ read_page crc file other
  unfolding read_page write_page
  read_page-write_page_other file id other page size small small' apart inside inside' =
      let n : length (update_checksum crc page) ≡ index_page_size =
        length-update_checksum page (omega arith) crc crc_lt ∙ size in
      let kept =
        slice-write_at file (id * index_page_size) (update_checksum crc page)
          (other * index_page_size) index_page_size (omega (arith, n))
          (apart_pages id other (length (update_checksum crc page)) n apart) in
      ground (arith, page_offset-pos id small, page_offset-pos other small', size, kept)
