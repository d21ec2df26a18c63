-- ===== src/Index/Pages.antt =====
-- bplus_tree.go: how the tree takes pages from its free list, and where a commit puts its catalog.
use masterkeeper.Base.{
  ℕ, ◌+◌, ◌%◌, ◌^◌, ◌≤◌, Option, none, some, List, [], ◌∷◌, ◌++◌, ◌≡◌, refl, sym, ap, ◌∙◌, ltb,
  if◌then◌else◌, arith,
}
use mathlib.Core.List.{append_assoc}

-- The part of `DiskBPlusTree` that hands out pages.
pub record Pages : Type 0 where
  pub catalog_root : ℕ
  pub next_page_id : ℕ
  pub free_list : List ℕ
  pub orphaned_list : List ℕ

-- Pages 0, 1 and 2 are never given back.
unfoldable pub mark_orphaned : ℕ → Pages → Pages
mark_orphaned id t = if ltb id 3 then t else record t { orphaned_list = t.orphaned_list ++ id ∷ [] }

-- The last element of a list, and the list without it.
unfoldable pub pop {ℓ} : {A : Type ℓ} → List A → Option (A × List A)
pop [] = none
pop (x ∷ xs) = elim (pop xs) [ none ↦ some (x, []) | some (y, ys) ↦ some (y, x ∷ ys) ]

unfoldable pub allocate_page_id : Pages → ℕ × Pages
allocate_page_id t = elim (pop t.free_list) [
  | some (id, rest) ↦ (id, record t { free_list = rest })
  | none ↦ (t.next_page_id, record t { next_page_id = (t.next_page_id + 1) % 2 ^ 64 })
]

-- The start of `writeNewStateLocked`: the catalog page and the orphans are free from here on, and
-- the page of the new catalog is allocated.
unfoldable pub catalog_page : Pages → ℕ × Pages
catalog_page t =
    let t1 = mark_orphaned t.catalog_root t in
    allocate_page_id
      (record t1 { free_list = t1.free_list ++ t1.orphaned_list; orphaned_list = [] })

pop-snoc {ℓ} : {A : Type ℓ} (xs : List A) (y : A) → pop (xs ++ y ∷ []) ≡ some (y, xs)
unfolding pop
pop-snoc [] y = refl
pop-snoc (x ∷ xs) y = rw (pop-snoc xs y)

-- Wherever the catalog in force is on page 3 or above, the page that a commit writes its new catalog to is
-- that very page, which the superblock still names at the time.
pub catalog_page-reused : (t : Pages) → 3 ≤ t.catalog_root → (catalog_page t).0 ≡ t.catalog_root
unfolding catalog_page mark_orphaned allocate_page_id
catalog_page-reused t h = ground (
  arith,
  ap pop (sym (append_assoc t.free_list t.orphaned_list (t.catalog_root ∷ [])))
      ∙ pop-snoc (t.free_list ++ t.orphaned_list) t.catalog_root,
)
