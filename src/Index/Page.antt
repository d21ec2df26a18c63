-- ===== src/Index/Page.antt =====
-- bplus_tree.go: the pages of the index file, as lists of bytes.
use masterkeeper.Base.{
  ℕ, ◌*◌, Option, none, some, List, ◌++◌, length, take, drop, replicate, ltb, leb, nat_eqb,
  if◌then◌else◌, not,
}
use masterkeeper.Base.Int.{ℤ, pos, negsuc, signed64}
use masterkeeper.Base.Slice.{slice}
use masterkeeper.Base.Bytes.{be, from_be}
use masterkeeper.Base.Result.{Result, ok, err}
use masterkeeper.Storage.{write_at}

abbrev pub index_page_size : ℕ
index_page_size = 16384

pub record PageHeader : Type 0 where
  pub magic : ℕ
  pub version : ℕ
  pub page_type : ℕ
  pub flags : ℕ
  pub page_id : ℕ
  pub generation : ℕ
  pub cell_count : ℕ
  pub free_start : ℕ
  pub free_end : ℕ
  pub right_sibling : ℕ
  pub checksum : ℕ

pub data Error : Type 0 where
  invalid_page_size unexpected_eof negative_offset checksum_failed invalid_magic both_invalid :
      Error

-- `int64(pageID) * IndexPageSize`, which wraps.
unfoldable pub page_offset : ℕ → ℤ
page_offset id = signed64 (id * index_page_size)

-- The field of `n` bytes at `off`.
abbrev pub field : ℕ → ℕ → List ℕ → ℕ
field off n page = from_be (slice off n page)

-- The 48 bytes that `writeHeader` puts down.
unfoldable pub header_bytes : PageHeader → List ℕ
header_bytes h =
    be 4 h.magic
    ++ (be 2 h.version
        ++ (be 1 h.page_type
            ++ (be 1 h.flags
                ++ (be 8 h.page_id
                    ++ (be 8 h.generation
                        ++ (be 2 h.cell_count
                            ++ (be 2 h.free_start
                                ++ (be 2 h.free_end
                                    ++ (be 8 h.right_sibling
                                        ++ (be 4 h.checksum ++ replicate 6 0))))))))))

-- `writeHeader` over the start of a buffer; `none` is the panic on a buffer that is too short.
unfoldable pub write_header : List ℕ → PageHeader → Option (List ℕ)
write_header buffer h =
    if ltb (length buffer) 48 then none else some (header_bytes h ++ drop 48 buffer)

unfoldable pub read_header : List ℕ → Option PageHeader
read_header buffer =
    if ltb (length buffer) 42
    then none
    else some (record {
      magic = field 0 4 buffer;
      version = field 4 2 buffer;
      page_type = field 6 1 buffer;
      flags = field 7 1 buffer;
      page_id = field 8 8 buffer;
      generation = field 16 8 buffer;
      cell_count = field 24 2 buffer;
      free_start = field 26 2 buffer;
      free_end = field 28 2 buffer;
      right_sibling = field 30 8 buffer;
      checksum = field 38 4 buffer;
    })

-- Bytes 38 to 41 of a page set to a word.
abbrev pub put_checksum : ℕ → List ℕ → List ℕ
put_checksum sum page = take 38 page ++ (be 4 sum ++ drop 42 page)

pub record Superblock : Type 0 where
  pub magic : ℕ
  pub version : ℕ
  pub page_size : ℕ
  pub generation : ℕ
  pub catalog_root_page_id : ℕ
  pub next_page_id : ℕ
  pub checksum : ℕ

abbrev pub superblock_magic : ℕ
superblock_magic = 0x4d4b5342

-- A fresh page with the fields; the checksum is left to `writePage`.
unfoldable pub serialize_superblock : Superblock → List ℕ
serialize_superblock s =
    be 4 s.magic
    ++ (be 2 s.version
        ++ (be 4 s.page_size
            ++ (be 8 s.generation
                ++ (be 8 s.catalog_root_page_id ++ (be 8 s.next_page_id ++ replicate 16350 0)))))

unfoldable pub deserialize_superblock : List ℕ → Result Error Superblock
deserialize_superblock page =
    if not (nat_eqb (length page) index_page_size)
    then err invalid_page_size
    else if not (nat_eqb (field 0 4 page) superblock_magic)
    then err invalid_magic
    else ok (record {
      magic = field 0 4 page;
      version = field 4 2 page;
      page_size = field 6 4 page;
      generation = field 10 8 page;
      catalog_root_page_id = field 18 8 page;
      next_page_id = field 26 8 page;
      checksum = field 38 4 page;
    })

-- The superblock that `NewDiskBPlusTree` opens the file with: of the pages 0 and 1, the valid one of
-- the higher generation, the first on a tie.
unfoldable pub choose_superblock :
    Result Error Superblock → Result Error Superblock → Result Error Superblock
choose_superblock (err x) (err y) = err both_invalid
choose_superblock (err x) (ok b) = ok b
choose_superblock (ok a) (err y) = ok a
choose_superblock (ok a) (ok b) = if leb b.generation a.generation then ok a else ok b

-- `crc` is `crc32.Checksum` with the Castagnoli table.
module _ (crc : List ℕ → ℕ) where
  unfoldable pub update_checksum : List ℕ → List ℕ
  update_checksum page = put_checksum (crc (put_checksum 0 page)) page

  unfoldable pub validate_checksum : List ℕ → Result Error (Unit {0})
  validate_checksum page =
      if nat_eqb (crc (put_checksum 0 page)) (field 38 4 page) then ok tt else err checksum_failed

  -- `readPage`; a page that the file ends in is an error.
  unfoldable pub read_page : List ℕ → ℕ → Result Error (List ℕ)
  read_page file id = elim (page_offset id) [
    | negsuc n ↦ err negative_offset
    | pos off ↦
        let page = slice off index_page_size file in
        if not (nat_eqb (length page) index_page_size)
        then err unexpected_eof
        else elim (validate_checksum page) [ err x ↦ err x | ok _ ↦ ok page ]
  ]

  -- `writePage` with a file that takes the bytes; it returns the file and the error.
  unfoldable pub write_page : List ℕ → ℕ → List ℕ → Result Error (Unit {0}) × List ℕ
  write_page file id page =
      if not (nat_eqb (length page) index_page_size)
      then (err invalid_page_size, file)
      else elim (page_offset id) [
        | negsuc n ↦ (err negative_offset, file)
        | pos off ↦ (ok tt, write_at file off (update_checksum page))
      ]

  abbrev pub read_superblock : List ℕ → ℕ → Result Error Superblock
  read_superblock file id = elim (read_page file id) [
    | err x ↦ err x
    | ok page ↦ deserialize_superblock page
  ]

  unfoldable pub active_superblock : List ℕ → Result Error Superblock
  active_superblock file = choose_superblock (read_superblock file 0) (read_superblock file 1)
