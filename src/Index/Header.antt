-- ===== src/Index/Header.antt =====
-- The header of a page, written and read.
use masterkeeper.Base.{ℕ, ◌^◌, ◌≤◌, ◌<◌, some, List, ◌++◌, ◌≡◌, length, drop, arith, ltb, false}
use masterkeeper.Base.Bytes.{be, from_be-be}
use masterkeeper.Index.Page.{PageHeader, header_bytes, write_header, read_header, field}

-- The fields of the Go struct fit their types.
pub record IsHeader (h : PageHeader) : Type 0 where
  pub magic : h.magic < 2 ^ 32
  pub version : h.version < 2 ^ 16
  pub page_type : h.page_type < 2 ^ 8
  pub flags : h.flags < 2 ^ 8
  pub page_id : h.page_id < 2 ^ 64
  pub generation : h.generation < 2 ^ 64
  pub cell_count : h.cell_count < 2 ^ 16
  pub free_start : h.free_start < 2 ^ 16
  pub free_end : h.free_end < 2 ^ 16
  pub right_sibling : h.right_sibling < 2 ^ 64
  pub checksum : h.checksum < 2 ^ 32

module _ (h : PageHeader) (valid : IsHeader h) (rest : List ℕ) where
  abbrev written : List ℕ
  written = header_bytes h ++ rest

  words :
      (field 0 4 written ≡ h.magic)
      × (field 4 2 written ≡ h.version)
      × (field 6 1 written ≡ h.page_type)
      × (field 7 1 written ≡ h.flags)
      × (field 8 8 written ≡ h.page_id)
      × (field 16 8 written ≡ h.generation)
      × (field 24 2 written ≡ h.cell_count)
      × (field 26 2 written ≡ h.free_start)
      × (field 28 2 written ≡ h.free_end)
      × (field 30 8 written ≡ h.right_sibling)
      × (field 38 4 written ≡ h.checksum)
  unfolding header_bytes be
  words = (
    from_be-be 4 h.magic (omega (arith, valid.magic)),
    from_be-be 2 h.version (omega (arith, valid.version)),
    from_be-be 1 h.page_type (omega (arith, valid.page_type)),
    from_be-be 1 h.flags (omega (arith, valid.flags)),
    from_be-be 8 h.page_id (omega (arith, valid.page_id)),
    from_be-be 8 h.generation (omega (arith, valid.generation)),
    from_be-be 2 h.cell_count (omega (arith, valid.cell_count)),
    from_be-be 2 h.free_start (omega (arith, valid.free_start)),
    from_be-be 2 h.free_end (omega (arith, valid.free_end)),
    from_be-be 8 h.right_sibling (omega (arith, valid.right_sibling)),
    from_be-be 4 h.checksum (omega (arith, valid.checksum)),
  )

  header_long : ltb (length written) 42 ≡ false
  unfolding header_bytes be
  header_long = ground arith

  pub read_header-written : read_header written ≡ some h
  unfolding read_header
  read_header-written = rw (
    header_long, words.0, words.1, words.2, words.3, words.4, words.5, words.6, words.7, words.8,
    words.9, words.10,
  )

-- Over any buffer of 48 bytes or more `writeHeader` writes a header whose fields fit their types so that `readHeader` reads back.
pub read_header-write_header :
    (h : PageHeader) (buffer : List ℕ)
    → IsHeader h
    → 48 ≤ length buffer
    → (page : List ℕ) × (write_header buffer h ≡ some page) × (read_header page ≡ some h)
unfolding write_header
read_header-write_header h buffer valid long =
    (header_bytes h ++ drop 48 buffer, ground arith, read_header-written h valid (drop 48 buffer))
