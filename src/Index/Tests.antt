-- ===== src/Index/Tests.antt =====
-- Runs of the index file, with a checksum that is the number of bytes, on files of zeros.
use masterkeeper.Base.{
  ℕ, true, false, All, zero, suc, ◌^◌, ◌≤◌, ◌<◌, some, List, [], ◌∷◌, ◌++◌, ◌≡◌, refl, sym, ap, ◌∙◌,
  replicate, arith, length, ◌≢◌, ◌⊎◌, ◌+◌, ◌*◌,
}
use masterkeeper.Base.Result.{Result, ok, err, ok_inj}
use masterkeeper.Base.Bytes.{be, from_be, from_be_acc}
use masterkeeper.Index.Page.{
  PageHeader, Superblock, Error, invalid_magic, read_page, write_page, update_checksum,
  write_header, read_header, read_superblock, active_superblock, page_offset, validate_checksum,
  deserialize_superblock, serialize_superblock, put_checksum,
}
use masterkeeper.Index.Checksum.{read_page-write_page, read_page-write_page_other}
use masterkeeper.Index.Pages.{Pages, catalog_page, catalog_page-reused}
use masterkeeper.Index.Key.{
  Error as KeyError, with_length, serialize_composite_key, deserialize_composite_key,
  deserialize_composite_key-serialize,
}
use masterkeeper.Index.Catalog.{
  IndexRoot, CatalogError, put_roots, serialize_catalog, deserialize_catalog,
}
use masterkeeper.Index.CatalogCells.{IsRoot, roots_end}
use masterkeeper.Index.CatalogPage.{deserialize_catalog-serialize}
use masterkeeper.Index.Compare.{Formats, equal, unknown_tag, compare_byte_keys}
use masterkeeper.Index.Collision.{text_key, compare_byte_keys-long}
use masterkeeper.Index.Header.{IsHeader, read_header-write_header}
use masterkeeper.Index.Superblocks.{
  IsSuperblock, with_checksum, target_of, target_page, other_page, active_superblock-write_page,
  active_superblock-torn,
}

abbrev zero_sum : List ℕ → ℕ
zero_sum bytes = 0

zero_sum_lt : (bytes : List ℕ) → zero_sum bytes < 2 ^ 32
zero_sum_lt bytes = omega arith

abbrev blank : List ℕ
blank = replicate 16384 0

abbrev two_pages : List ℕ
two_pages = replicate 32768 0

header : PageHeader
header = record {
  magic = 7;
  version = 1;
  page_type = 2;
  flags = 0;
  page_id = 3;
  generation = 4;
  cell_count = 5;
  free_start = 6;
  free_end = 7;
  right_sibling = 8;
  checksum = 9;
}

header-IsHeader : IsHeader header
unfolding header
header-IsHeader = record {
  magic = omega arith;
  version = omega arith;
  page_type = omega arith;
  flags = omega arith;
  page_id = omega arith;
  generation = omega arith;
  cell_count = omega arith;
  free_start = omega arith;
  free_end = omega arith;
  right_sibling = omega arith;
  checksum = omega arith;
}

read_header-write_header_example :
    (page : List ℕ) × (write_header (replicate 50 0) header ≡ some page)
    × (read_header page ≡ some header)
read_header-write_header_example =
    read_header-write_header header (replicate 50 0) header-IsHeader (omega arith)

read_page-write_page_example :
    ((write_page zero_sum two_pages 1 blank).0 ≡ ok tt)
    × (read_page zero_sum (write_page zero_sum two_pages 1 blank).1 1
        ≡ ok (update_checksum zero_sum blank))
read_page-write_page_example =
    read_page-write_page zero_sum zero_sum_lt two_pages 1 blank refl (omega arith) (omega arith)

read_page-write_page_other_example :
    read_page zero_sum (write_page zero_sum two_pages 1 blank).1 0 ≡ read_page zero_sum two_pages 0
read_page-write_page_other_example =
    read_page-write_page_other zero_sum zero_sum_lt two_pages 1 0 blank refl (omega arith)
      (omega arith) (λ e. omega arith) (omega arith) (omega arith)

blank-invalid : (id : ℕ) → id ≤ 1 → read_superblock zero_sum two_pages id ≡ err invalid_magic
unfolding read_page page_offset validate_checksum deserialize_superblock from_be from_be_acc be
blank-invalid zero h = refl
blank-invalid (suc zero) h = refl
blank-invalid (suc (suc id)) h = absurd (omega arith)

never : (id : ℕ) → id ≤ 1 → (p : Superblock) → read_superblock zero_sum two_pages id ≡ ok p → ⊥
never id h p e = err-ne-ok invalid_magic p (sym (blank-invalid id h) ∙ e)
  where
    err-ne-ok : (x : Error) (q : Superblock) → ◌≡◌ {A = Result Error Superblock} (err x) (ok q) → ⊥
    err-ne-ok x q e = cc

-- The target is page 0.
target-low : target_of zero_sum two_pages ≤ 1
unfolding target_page
target-low = omega (
  arith,
  ap (λ r. target_page r (read_superblock zero_sum two_pages 1)) (blank-invalid 0 (omega arith)),
)

abbrev first : Superblock
first = record {
  magic = 1296782146;
  version = 1;
  page_size = 16384;
  generation = 1;
  catalog_root_page_id = 2;
  next_page_id = 3;
  checksum = 0;
}

first-IsSuperblock : IsSuperblock first
first-IsSuperblock = record {
  magic = refl;
  version = omega arith;
  page_size = omega arith;
  generation = omega arith;
  catalog_root_page_id = omega arith;
  next_page_id = omega arith;
}

active_superblock-write_page_example :
    ((write_page zero_sum two_pages (target_of zero_sum two_pages) (serialize_superblock first)).0
      ≡ ok tt)
    × (active_superblock zero_sum
          (write_page zero_sum two_pages
            (target_of zero_sum two_pages)
            (serialize_superblock first)).1
        ≡ ok (with_checksum (zero_sum (put_checksum 0 (serialize_superblock first))) first))
active_superblock-write_page_example =
    active_superblock-write_page zero_sum zero_sum_lt two_pages first first-IsSuperblock
      (omega arith) (λ p e. absurd (never 0 (omega arith) p e))
      (λ p e. absurd (never 1 (omega arith) p e))

abbrev second : Superblock
second = record first { generation = 2 }

-- Page 0 holds the newer superblock, page 1 the older one, which the next commit writes to.
abbrev older_page : List ℕ
older_page = put_checksum 0 (serialize_superblock first)

abbrev newer_page : List ℕ
newer_page = put_checksum 0 (serialize_superblock second)

abbrev committed_file : List ℕ
committed_file = newer_page ++ older_page

abbrev torn_file : List ℕ
torn_file = newer_page ++ blank

reads_newer : read_superblock zero_sum committed_file 0 ≡ ok second
unfolding read_page page_offset validate_checksum deserialize_superblock from_be from_be_acc be
    serialize_superblock
reads_newer = refl

reads_older : read_superblock zero_sum committed_file 1 ≡ ok first
unfolding read_page page_offset validate_checksum deserialize_superblock from_be from_be_acc be
    serialize_superblock
reads_older = refl

reads_kept : read_superblock zero_sum torn_file 0 ≡ ok second
unfolding read_page page_offset validate_checksum deserialize_superblock from_be from_be_acc be
    serialize_superblock
reads_kept = refl

reads_torn : read_superblock zero_sum torn_file 1 ≡ err invalid_magic
unfolding read_page page_offset validate_checksum deserialize_superblock from_be from_be_acc be
    serialize_superblock
reads_torn = refl

targets_older : target_of zero_sum committed_file ≡ 1
unfolding target_page
targets_older = rw (reads_newer, reads_older) refl

-- Both superblocks are valid and the commit tears the older one.
active_superblock-torn_example :
    active_superblock zero_sum torn_file ≡ active_superblock zero_sum committed_file
active_superblock-torn_example =
    active_superblock-torn zero_sum committed_file torn_file invalid_magic
      (ap (read_superblock zero_sum torn_file) targets_older ∙ reads_torn)
      (ap (λ t. read_superblock zero_sum torn_file (other_page t)) targets_older
        ∙ reads_kept
        ∙ sym reads_newer
        ∙ ap (λ t. read_superblock zero_sum committed_file (other_page t)) (sym targets_older))
      generations_apart
  where
    generations_apart :
        (p q : Superblock)
        → read_superblock zero_sum committed_file 0 ≡ ok p
        → read_superblock zero_sum committed_file 1 ≡ ok q
        → p.generation ≢ q.generation
    generations_apart p q e f same = omega (
      arith,
      same,
      ap (λ s. s.generation) (ok_inj (sym reads_newer ∙ e)),
      ap (λ s. s.generation) (ok_inj (sym reads_older ∙ f)),
    )

abbrev pages : Pages
pages = record { catalog_root = 5; next_page_id = 9; free_list = 7 ∷ []; orphaned_list = 6 ∷ [] }

catalog_page-reused_example : (catalog_page pages).0 ≡ 5
catalog_page-reused_example = catalog_page-reused pages (omega arith)

-- A key that is its own bytes.
abbrev plain : List ℕ → Result KeyError (List ℕ)
plain bytes = ok bytes

deserialize_composite_key-serialize_example :
    (bytes : List ℕ) × (serialize_composite_key plain (1 ∷ 2 ∷ []) (3 ∷ []) ≡ ok bytes)
    × (deserialize_composite_key plain bytes ≡ ok (1 ∷ 2 ∷ [], 3 ∷ []))
deserialize_composite_key-serialize_example =
    deserialize_composite_key-serialize plain plain (1 ∷ 2 ∷ []) (3 ∷ []) (1 ∷ 2 ∷ []) (3 ∷ []) refl
      refl refl refl (omega arith) (omega arith)

roots : List IndexRoot
roots =
    record {
      name = 112 ∷ 107 ∷ [];
      root_page_id = 5;
      generation = 2;
      unique = true;
      ordered = false;
    }
    ∷ record { name = []; root_page_id = 6; generation = 2; unique = false; ordered = true }
    ∷ []

abbrev catalog_result : Result CatalogError (List ℕ)
catalog_result = serialize_catalog zero_sum roots (9 ∷ 8 ∷ []) 4 2

abbrev page_in : Result CatalogError (List ℕ) → List ℕ
page_in (ok p) = p
page_in (err x) = []

catalog_fits : catalog_result ≡ ok (page_in catalog_result)
unfolding serialize_catalog put_roots roots
catalog_fits = refl

roots-IsRoot : All IsRoot roots
unfolding roots
roots-IsRoot = (
  record { root_page_id = omega arith; generation = omega arith },
  (record { root_page_id = omega arith; generation = omega arith }, tt),
)

deserialize_catalog-serialize_example :
    (kept rest : List ℕ) × (9 ∷ 8 ∷ [] ≡ kept ++ rest)
    × (deserialize_catalog zero_sum (page_in catalog_result) ≡ ok (roots, kept))
    × ((rest ≡ []) ⊎ (16380 < roots_end roots 48 + 4 + 8 * (length kept + 1)))
deserialize_catalog-serialize_example =
    deserialize_catalog-serialize zero_sum zero_sum_lt roots (9 ∷ 8 ∷ []) 4 2
      (page_in catalog_result) roots-IsRoot (omega arith, (omega arith, tt)) (omega arith)
      (omega arith) catalog_fits

plain_formats : Formats (Unit {0})
plain_formats = record {
  float_of = λ z. 0;
  less_float = λ a b. false;
  before = λ s n t m. false;
  sprint = λ v. [];
}

compare_byte_keys-long_example :
    compare_byte_keys
      (λ bytes. err unknown_tag)
      plain_formats
      1
      (with_length (text_key (replicate 1019 65)) ++ [])
      (with_length (text_key (replicate 1019 66)) ++ 7 ∷ [])
    ≡ some equal
compare_byte_keys-long_example =
    compare_byte_keys-long (λ bytes. err unknown_tag) plain_formats 0 (replicate 1019 65)
      (replicate 1019 66) [] (7 ∷ []) refl (omega arith) (omega arith)
