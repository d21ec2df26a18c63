-- ===== src/Index.antt =====
-- bplus_tree.go: the file of an index. `Page` has the pages, their headers and checksums and the
-- superblock, `Pages` the pages of a commit, `Key` the composite keys; the others the proofs.
pub mod Page
pub mod Checksum
pub mod Header
pub mod Superblocks
pub mod Pages
pub mod Key
pub mod Compare
pub mod CompareEnds
pub mod Collision
pub mod Catalog
pub mod CatalogCells
pub mod CatalogPage
mod Tests
