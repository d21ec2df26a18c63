-- ===== src/Index/Catalog.antt =====
-- bplus_tree.go: the page of the catalog, with the roots of the named indexes and the free pages.
-- A name is its bytes.
use masterkeeper.Base.{
  ℕ, zero, suc, ◌+◌, ◌-◌, ◌*◌, ◌/◌, ◌%◌, ◌^◌, Bool, true, false, none, some, List, [], ◌∷◌, ◌++◌,
  length, take, replicate, ltb, leb, nat_eqb, not, if◌then◌else◌,
}
use masterkeeper.Base.Slice.{slice}
use masterkeeper.Base.Bytes.{be, from_be}
use masterkeeper.Base.Result.{Result, ok, err, ◌>>=◌}
use masterkeeper.Index.Page.{
  PageHeader, index_page_size, header_bytes, read_header, update_checksum, validate_checksum,
}
use masterkeeper.Index.Page as Page

pub record IndexRoot : Type 0 where
  pub name : List ℕ
  pub root_page_id : ℕ
  pub generation : ℕ
  pub unique : Bool
  pub ordered : Bool

pub data CatalogError : Type 0 where
  catalog_overflow invalid_catalog_magic : CatalogError
  page_error : Page.Error → CatalogError
  -- the panic of an index or a slice that is out of range
  out_of_range : CatalogError

abbrev pub catalog_magic : ℕ
catalog_magic = 0x4d4b4341

abbrev pub flag : Bool → ℕ
flag true = 1
flag false = 0

-- The bytes of one root, from its offset on.
unfoldable pub root_bytes : IndexRoot → List ℕ
root_bytes r =
    be 2 (length r.name % 2 ^ 16)
    ++ (r.name
        ++ (be 8 r.root_page_id
            ++ (be 8 r.generation ++ (be 1 (flag r.unique) ++ be 1 (flag r.ordered)))))

-- The loop over the roots: the bytes from an offset on, and the offset behind them.
unfoldable pub put_roots : List IndexRoot → ℕ → Result CatalogError (List ℕ × ℕ)
put_roots [] off = ok ([], off)
put_roots (r ∷ rs) off =
    let rest = put_roots rs (off + 20 + length r.name) in
    if ltb (index_page_size - 4) (off + 2 + length r.name + 8 + 8 + 1 + 1)
    then err catalog_overflow
    else rest >>= λ q. ok (root_bytes r ++ q.0, q.1)

unfoldable pub free_bytes : List ℕ → List ℕ
free_bytes [] = []
free_bytes (id ∷ ids) = be 8 id ++ free_bytes ids

-- As much of the free list as the page has room for.
unfoldable pub kept_free : ℕ → List ℕ → List ℕ
kept_free off free =
    let most = (index_page_size - 4 - off - 4) / 8 in
    if ltb most (length free) then take most free else free

abbrev pub catalog_header : List IndexRoot → ℕ → ℕ → PageHeader
catalog_header roots id gen = record {
  magic = catalog_magic;
  version = 1;
  page_type = 4;
  flags = 0;
  page_id = id;
  generation = gen;
  cell_count = length roots % 2 ^ 16;
  free_start = 0;
  free_end = 0;
  right_sibling = 0;
  checksum = 0;
}

-- The free list behind the roots, and zeros up to the end of the page.
abbrev pub free_part : ℕ → List ℕ → List ℕ
free_part off free =
    be 4 (length free % 2 ^ 32)
    ++ (free_bytes free ++ replicate (index_page_size - (off + 4 + length (free_bytes free))) 0)

module _ (crc : List ℕ → ℕ) where
  unfoldable pub serialize_catalog : List IndexRoot → List ℕ → ℕ → ℕ → Result CatalogError (List ℕ)
  serialize_catalog roots free id gen = put_roots roots 48 >>= λ q. ok (
      update_checksum crc
        (header_bytes (catalog_header roots id gen) ++ (q.0 ++ free_part q.1 (kept_free q.1 free))))

-- `page[off : off+n]`.
unfoldable pub bytes_at : ℕ → ℕ → List ℕ → Result CatalogError (List ℕ)
bytes_at off n page =
    if ltb (length page) (off + n) then err out_of_range else ok (slice off n page)

abbrev pub word_at : ℕ → ℕ → List ℕ → Result CatalogError ℕ
word_at off n page = bytes_at off n page >>= λ b. ok (from_be b)

unfoldable pub read_root : ℕ → List ℕ → Result CatalogError (IndexRoot × ℕ)
read_root off page = word_at off 2 page >>= λ n. bytes_at (off + 2) n page >>= λ name.
    word_at (off + 2 + n) 8 page >>= λ root. word_at (off + 2 + n + 8) 8 page >>= λ gen.
    word_at (off + 2 + n + 8 + 8) 1 page >>= λ unique.
    word_at (off + 2 + n + 8 + 8 + 1) 1 page >>= λ ordered. ok (
      record {
        name = name;
        root_page_id = root;
        generation = gen;
        unique = nat_eqb unique 1;
        ordered = nat_eqb ordered 1;
      },
      off + 2 + n + 8 + 8 + 1 + 1,
    )

unfoldable pub read_roots : ℕ → ℕ → List ℕ → Result CatalogError (List IndexRoot × ℕ)
read_roots zero off page = ok ([], off)
read_roots (suc n) off page =
    read_root off page >>= λ q. read_roots n q.1 page >>= λ rest. ok (q.0 ∷ rest.0, rest.1)

unfoldable pub read_ids : ℕ → ℕ → List ℕ → Result CatalogError (List ℕ)
read_ids zero off page = ok []
read_ids (suc n) off page =
    word_at off 8 page >>= λ id. read_ids n (off + 8) page >>= λ rest. ok (id ∷ rest)

-- The ids where the page has room for as many.
unfoldable pub free_ids : ℕ → ℕ → List ℕ → Result CatalogError (List ℕ)
free_ids n off page = if leb (off + 8 * n) (index_page_size - 4) then read_ids n off page else ok []

unfoldable pub read_free : ℕ → List ℕ → Result CatalogError (List ℕ)
read_free off page =
    if leb (off + 4) (index_page_size - 4)
    then word_at off 4 page >>= (λ n. free_ids n (off + 4) page)
    else ok []

module _ (crc : List ℕ → ℕ) where
  unfoldable pub deserialize_catalog : List ℕ → Result CatalogError (List IndexRoot × List ℕ)
  deserialize_catalog page = elim (validate_checksum crc page) [
    | err x ↦ err (page_error x)
    | ok _ ↦ elim (read_header page) [
      | none ↦ err out_of_range
      | some h ↦
          if not (nat_eqb h.magic catalog_magic)
          then err invalid_catalog_magic
          else read_roots h.cell_count 48 page >>= λ q.
              read_free q.1 page >>= λ free. ok (q.0, free)
    ]
  ]
