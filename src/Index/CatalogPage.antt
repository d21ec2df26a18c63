-- ===== src/Index/CatalogPage.antt =====
-- The catalog page, written and read.
use masterkeeper.Base.{
  ℕ, ◌+◌, ◌*◌, ◌^◌, ◌<◌, some, List, [], ◌++◌, ◌≡◌, ◌⊎◌, refl, sym, ap, ◌∙◌, length, arith, All,
  length-append,
}
use mathlib.Core.Path.{subst}
use masterkeeper.Base.Bytes.{be}
use masterkeeper.Base.Result.{ok, ok_inj, bind-ok}
use masterkeeper.Index.Page.{
  PageHeader, header_bytes, read_header, update_checksum, validate_checksum, put_checksum,
}
use masterkeeper.Index.Checksum.{validate_checksum-update_checksum}
use masterkeeper.Index.Header.{IsHeader, read_header-written}
use masterkeeper.Index.Catalog.{
  IndexRoot, put_roots, kept_free, catalog_header, free_part, serialize_catalog, read_roots,
  read_free, deserialize_catalog,
}
use masterkeeper.Index.CatalogCells.{
  read_roots-next, read_free-next, kept_free-All, kept_free-prefix, length-kept_free, IsRoot,
  roots_end,
}

catalog_header-IsHeader :
    (roots : List IndexRoot) (id gen sum : ℕ)
    → id < 2 ^ 64
    → gen < 2 ^ 64
    → sum < 2 ^ 32
    → IsHeader (record (catalog_header roots id gen) { checksum = sum })
catalog_header-IsHeader roots id gen sum small_id small_gen small_sum = record {
  magic = omega arith;
  version = omega arith;
  page_type = omega arith;
  flags = omega arith;
  page_id = omega (arith, small_id);
  generation = omega (arith, small_gen);
  cell_count = omega arith;
  free_start = omega arith;
  free_end = omega arith;
  right_sibling = omega arith;
  checksum = omega (arith, small_sum);
}

-- The checksum is put into the header.
put_checksum-header :
    (h : PageHeader) (sum : ℕ) (rest : List ℕ)
    → put_checksum sum (header_bytes h ++ rest) ≡ header_bytes (record h { checksum = sum }) ++ rest
unfolding header_bytes be
put_checksum-header h sum rest = refl

length-header_bytes : (h : PageHeader) → length (header_bytes h) ≡ 48
unfolding header_bytes be
length-header_bytes h = refl

module _ (crc : List ℕ → ℕ) (crc_lt : (bytes : List ℕ) → crc bytes < 2 ^ 32) where
  -- Reading behind a header that is as it should be.
  read_page_of :
      (page : List ℕ) (h : PageHeader) (roots : List IndexRoot) (free : List ℕ) (end_ : ℕ)
      → validate_checksum crc page ≡ ok tt
      → read_header page ≡ some h
      → h.magic ≡ 0x4d4b4341
      → h.cell_count ≡ length roots
      → read_roots (length roots) 48 page ≡ ok (roots, end_)
      → read_free end_ page ≡ ok free
      → deserialize_catalog crc page ≡ ok (roots, free)
  unfolding deserialize_catalog
  read_page_of page h roots free end_ valid header magic count at_roots at_free =
      ground (arith, valid, header, magic, ap (λ n. read_roots n 48 page) count ∙ at_roots, at_free)

  -- The free list that is read back is the one that is kept.
  deserialize_catalog-kept :
      (roots : List IndexRoot) (free : List ℕ) (id gen : ℕ) (page : List ℕ)
      → All IsRoot roots
      → All (λ n. n < 2 ^ 64) free
      → id < 2 ^ 64
      → gen < 2 ^ 64
      → serialize_catalog crc roots free id gen ≡ ok page
      → deserialize_catalog crc page ≡ ok (roots, kept_free (roots_end roots 48) free)
  unfolding serialize_catalog update_checksum
  deserialize_catalog-kept roots free id gen page fits small small_id small_gen eq =
      let ((cells, end_), made, done) = bind-ok {B = List ℕ} (put_roots roots 48) _ page eq in
      let kept = kept_free end_ free in
      let raw = header_bytes (catalog_header roots id gen) ++ (cells ++ free_part end_ kept) in
      let sum = crc (put_checksum 0 raw) in
      let header = record (catalog_header roots id gen) { checksum = sum } in
      let whole : page ≡ header_bytes header ++ (cells ++ free_part end_ kept) =
        sym (ok_inj done)
        ∙ put_checksum-header (catalog_header roots id gen) sum (cells ++ free_part end_ kept) in
      let (at_roots, behind, where_, least, most) =
        read_roots-next roots 48 page cells (free_part end_ kept) end_ fits (omega arith) made
          (header_bytes header, whole, length-header_bytes header) in
      read_page_of page header roots kept end_
        (subst (λ q. validate_checksum crc q ≡ ok tt) (ok_inj done)
          (validate_checksum-update_checksum raw
            (omega (
              arith,
              length-append (header_bytes (catalog_header roots id gen))
                  (cells ++ free_part end_ kept),
              length-header_bytes (catalog_header roots id gen),
            ))
            crc crc_lt))
        (ap read_header whole
          ∙ read_header-written header
              (catalog_header-IsHeader roots id gen sum small_id small_gen
                (crc_lt (put_checksum 0 raw)))
              (cells ++ free_part end_ kept))
        refl (omega (arith, least, most)) at_roots
        (read_free-next end_ page kept _ most (kept_free-All (λ n. n < 2 ^ 64) end_ free small)
          (length-kept_free end_ free) behind)
      ∙ ap (λ k. ok (roots, kept_free k free)) where_

  -- Where checksums fit 32 bits: if `serializeCatalog` makes a page of roots and free pages whose
  -- fields fit their types, `deserializeCatalog` reads the same roots from it, and a free list that
  -- the other one begins with: it is the whole list, or there is no room for one more id between
  -- the roots, with the count behind them, and the checksum.
  pub deserialize_catalog-serialize :
      (roots : List IndexRoot) (free : List ℕ) (id gen : ℕ) (page : List ℕ)
      → All IsRoot roots
      → All (λ n. n < 2 ^ 64) free
      → id < 2 ^ 64
      → gen < 2 ^ 64
      → serialize_catalog crc roots free id gen ≡ ok page
      → (kept rest : List ℕ) × (free ≡ kept ++ rest)
        × (deserialize_catalog crc page ≡ ok (roots, kept))
        × ((rest ≡ []) ⊎ (16380 < roots_end roots 48 + 4 + 8 * (length kept + 1)))
  deserialize_catalog-serialize roots free id gen page fits small small_id small_gen eq =
      let (rest, whole, full) = kept_free-prefix (roots_end roots 48) free in
      (
        kept_free (roots_end roots 48) free,
        rest,
        whole,
        deserialize_catalog-kept roots free id gen page fits small small_id small_gen eq,
        full,
      )
