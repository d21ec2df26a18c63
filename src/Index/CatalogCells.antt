-- ===== src/Index/CatalogCells.antt =====
-- The parts of the catalog page, read back one after the other.
use masterkeeper.Base.{
  ℕ, zero, suc, ◌+◌, ◌-◌, ◌*◌, ◌/◌, ◌%◌, ◌^◌, ◌≤◌, ◌<◌, Bool, true, false, List, [], ◌∷◌, ◌++◌, ◌≡◌,
  refl, sym, ap, ◌∙◌, length, take, ltb, leb, nat_eqb, arith, All, length-append, length-take,
  Bool-cases, ◌⊎◌, inl, inr,
}
use mathlib.Core.List.{append_assoc, append-nil}
use mathlib.Core.Path.{subst, subst₂}
use masterkeeper.Base.Slice.{slice, slice_middle}
use masterkeeper.Base.Bytes.{be, from_be-be, length-be}
use masterkeeper.Base.Result.{Result, ok, ok_inj, bind-eq, bind-ok}
use masterkeeper.Index.Page.{index_page_size}
use masterkeeper.Index.Catalog.{
  IndexRoot, CatalogError, flag, root_bytes, put_roots, free_bytes, kept_free, bytes_at, word_at,
  read_root, read_roots, read_ids, free_ids, read_free,
}

-- What stands in a page from an offset on.
abbrev pub At : ℕ → List ℕ → List ℕ → Type 0
At off page rest = (before : List ℕ) × (page ≡ before ++ rest) × (length before ≡ off)

bytes_at-next :
    (off n : ℕ) (page mid post : List ℕ)
    → n ≡ length mid
    → At off page (mid ++ post)
    → (bytes_at off n page ≡ ok mid) × At (off + n) page post
unfolding bytes_at
bytes_at-next off n page mid post len (before, eq, at_off) = (
  rw (inside) (ap ok (ap (slice off n) eq ∙ slice_middle off n before mid post (sym at_off) len)),
  (before ++ mid, eq ∙ sym (append_assoc before mid post), omega (arith, length-append before mid)),
)
  where
    inside : ltb (length page) (off + n) ≡ false
    inside =
        ground (arith, ap length eq, length-append before (mid ++ post), length-append mid post)

word_at-next :
    (off n v : ℕ) (page post : List ℕ)
    → v < 256 ^ n
    → At off page (be n v ++ post)
    → (word_at off n page ≡ ok v) × At (off + n) page post
word_at-next off n v page post small at_off =
    let (read, next) = bytes_at-next off n page (be n v) post (sym (length-be n v)) at_off in
    (rw read (ap ok (from_be-be n v small)), next)

-- The fields of a root fit their types.
pub record IsRoot (r : IndexRoot) : Type 0 where
  pub root_page_id : r.root_page_id < 2 ^ 64
  pub generation : r.generation < 2 ^ 64

root_bytes-append :
    (r : IndexRoot) (post : List ℕ)
    → root_bytes r ++ post
      ≡ be 2 (length r.name % 2 ^ 16)
        ++ (r.name
            ++ (be 8 r.root_page_id
                ++ (be 8 r.generation
                    ++ (be 1 (flag r.unique) ++ (be 1 (flag r.ordered) ++ post)))))
unfolding root_bytes
root_bytes-append r post =
    rw
      (
        append_assoc (be 2 (length r.name % 2 ^ 16))
            (r.name
              ++ (be 8 r.root_page_id
                  ++ (be 8 r.generation ++ (be 1 (flag r.unique) ++ be 1 (flag r.ordered)))))
            post,
        append_assoc r.name
            (be 8 r.root_page_id
              ++ (be 8 r.generation ++ (be 1 (flag r.unique) ++ be 1 (flag r.ordered))))
            post,
        append_assoc (be 8 r.root_page_id)
            (be 8 r.generation ++ (be 1 (flag r.unique) ++ be 1 (flag r.ordered))) post,
        append_assoc (be 8 r.generation) (be 1 (flag r.unique) ++ be 1 (flag r.ordered)) post,
        append_assoc (be 1 (flag r.unique)) (be 1 (flag r.ordered)) post,
      )
      refl

flag_small : (b : Bool) → flag b < 256 ^ 1
flag_small true = omega arith
flag_small false = omega arith

flag-back : (b : Bool) → nat_eqb (flag b) 1 ≡ b
flag-back true = ground arith
flag-back false = ground arith

read_root-next :
    (off : ℕ) (page post : List ℕ) (r : IndexRoot)
    → IsRoot r
    → length r.name < 2 ^ 16
    → At off page (root_bytes r ++ post)
    → (read_root off page ≡ ok (r, off + 20 + length r.name))
      × At (off + 20 + length r.name) page post
unfolding read_root
read_root-next off page post r fits short at_off =
    let n = length r.name in
    let (e1, a1) =
      word_at-next off 2 (n % 2 ^ 16) page _ (omega arith)
        (subst (At off page) (root_bytes-append r post) at_off) in
    let (e2, a2) = bytes_at-next (off + 2) n page r.name _ refl a1 in
    let (e3, a3) =
      word_at-next (off + 2 + n) 8 r.root_page_id page _ (omega (arith, fits.root_page_id)) a2 in
    let (e4, a4) =
      word_at-next (off + 2 + n + 8) 8 r.generation page _ (omega (arith, fits.generation)) a3 in
    let (e5, a5) =
      word_at-next (off + 2 + n + 8 + 8) 1 (flag r.unique) page _ (flag_small r.unique) a4 in
    let (e6, a6) =
      word_at-next (off + 2 + n + 8 + 8 + 1) 1 (flag r.ordered) page post (flag_small r.ordered)
        a5 in
    let whole : n % 2 ^ 16 ≡ n = omega (arith, short) in
    let last : off + 2 + n + 8 + 8 + 1 + 1 ≡ off + 20 + n = omega arith in
    (
      bind-eq _ _ _ _ (e1 ∙ ap ok whole) (
          bind-eq _ _ _ _ e2 (
            bind-eq _ _ _ _ e3 (
              bind-eq _ _ _ _ e4 (
                bind-eq _ _ _ _ e5 (
                  bind-eq _ _ _ _ e6 (λ i. ok (
                    record r { unique = flag-back r.unique i; ordered = flag-back r.ordered i },
                    last i,
                  ))))))),
      subst (λ k. At k page post) last a6,
    )

-- The offset behind the roots of a catalog.
abbrev pub roots_end : List IndexRoot → ℕ → ℕ
roots_end [] off = off
roots_end (r ∷ rs) off = roots_end rs (off + 20 + length r.name)

put_roots-step :
    (r : IndexRoot) (rs : List IndexRoot) (off : ℕ) (cells : List ℕ) (end_ : ℕ)
    → put_roots (r ∷ rs) off ≡ ok (cells, end_)
    → (off + 20 + length r.name ≤ 16380)
      × (rest : List ℕ) × (put_roots rs (off + 20 + length r.name) ≡ ok (rest, end_))
      × (cells ≡ root_bytes r ++ rest)
unfolding put_roots
put_roots-step r rs off cells end_ eq =
    elim (Bool-cases (ltb (index_page_size - 4) (off + 2 + length r.name + 8 + 8 + 1 + 1))) [
      | inl full ↦ absurd (ground (arith, full, eq))
      | inr room ↦
          let ((rest, last), made, done) =
            bind-ok {B = List ℕ × ℕ} (put_roots rs (off + 20 + length r.name))
              (λ q. ok (root_bytes r ++ q.0, q.1)) (cells, end_) (ground (arith, room, eq)) in
          (
            ground (arith, room),
            rest,
            made ∙ ap (λ q. ok (rest, q.1)) (ok_inj done),
            ap (λ q. q.0) (sym (ok_inj done)),
          )
    ]

-- The roots that fit on the page are read back, up to the offset behind them.
pub read_roots-next :
    (rs : List IndexRoot) (off : ℕ) (page cells post : List ℕ) (end_ : ℕ)
    → All IsRoot rs
    → off ≤ 16380
    → put_roots rs off ≡ ok (cells, end_)
    → At off page (cells ++ post)
    → (read_roots (length rs) off page ≡ ok (rs, end_))
      × At end_ page post
      × (end_ ≡ roots_end rs off)
      × (off + 20 * length rs ≤ end_)
      × (end_ ≤ 16380)
unfolding read_roots put_roots
read_roots-next [] off page cells post end_ fits bound made at_off =
    let same = ok_inj made in
    (
      ap (λ q. ok ([], q.1)) same,
      subst₂ (λ k c. At k page (c ++ post)) (ap (λ q. q.1) same) (sym (ap (λ q. q.0) same)) at_off,
      sym (ap (λ q. q.1) same),
      omega (arith, ap (λ q. q.1) same),
      omega (arith, bound, ap (λ q. q.1) same),
    )
read_roots-next (r ∷ rs) off page cells post end_ fits bound made at_off =
    let (room, rest, later, split) = put_roots-step r rs off cells end_ made in
    let (first, next) = read_root-next off page (rest ++ post) r fits.0 (omega (arith, room)) (
      subst (At off page) (ap (λ c. c ++ post) split ∙ append_assoc (root_bytes r) rest post)
        at_off) in
    let (others, behind, where_, least, most) =
      read_roots-next rs (off + 20 + length r.name) page rest post end_ fits.1 room later next in
    (
      bind-eq _ _ _ _ first (bind-eq _ _ _ _ others refl),
      behind,
      where_,
      omega (arith, least),
      most,
    )

read_ids-next :
    (ids : List ℕ) (off : ℕ) (page post : List ℕ)
    → All (λ id. id < 2 ^ 64) ids
    → At off page (free_bytes ids ++ post)
    → read_ids (length ids) off page ≡ ok ids
unfolding read_ids free_bytes
read_ids-next [] off page post small at_off = refl
read_ids-next (id ∷ ids) off page post small at_off =
    let (first, next) =
      word_at-next off 8 id page (free_bytes ids ++ post) (omega (arith, small.0))
        (subst (At off page) (append_assoc (be 8 id) (free_bytes ids) post) at_off) in
    bind-eq _ _ _ _ first
      (bind-eq _ _ _ _ (read_ids-next ids (off + 8) page post small.1 next) refl)

All-take {κ} : (P : ℕ → Type κ) (n : ℕ) (xs : List ℕ) → All P xs → All P (take n xs)
All-take P zero xs h = tt
All-take P (suc n) [] h = tt
All-take P (suc n) (x ∷ xs) h = (h.0, All-take P n xs h.1)

pub kept_free-All :
    (P : ℕ → Type 0) (off : ℕ) (ids : List ℕ) → All P ids → All P (kept_free off ids)
unfolding kept_free
kept_free-All P off ids h = elim (Bool-cases (ltb ((16380 - off - 4) / 8) (length ids))) [
  | inl more ↦ rw more (All-take P ((16380 - off - 4) / 8) ids h)
  | inr fits ↦ rw fits h
]

take-prefix :
    (n : ℕ) (xs : List ℕ)
    → n ≤ length xs
    → (rest : List ℕ) × (xs ≡ take n xs ++ rest) × (length (take n xs) ≡ n)
take-prefix zero xs h = (xs, refl, refl)
take-prefix (suc n) [] h = absurd (omega (arith, h))
take-prefix (suc n) (x ∷ xs) h =
    let (rest, whole, size) = take-prefix n xs (omega (arith, h)) in
    (rest, ap (λ q. x ∷ q) whole, omega (arith, size))

-- What is kept is the start of the list: all of it, or as much as fits.
pub kept_free-prefix :
    (off : ℕ) (ids : List ℕ)
    → (rest : List ℕ) × (ids ≡ kept_free off ids ++ rest)
      × ((rest ≡ []) ⊎ (16380 < off + 4 + 8 * (length (kept_free off ids) + 1)))
unfolding kept_free
kept_free-prefix off ids = elim (Bool-cases (ltb ((16380 - off - 4) / 8) (length ids))) [
  | inl more ↦
      let low : (16380 - off - 4) / 8 ≤ length ids = ground (arith, more) in
      let (rest, whole, size) = take-prefix ((16380 - off - 4) / 8) ids low in
      (rest, rw more whole, inr (rw more (omega (arith, size))))
  | inr fits ↦ ([], rw fits (sym (append-nil ids)), inl refl)
]

-- What is kept has room on the page.
pub length-kept_free : (off : ℕ) (ids : List ℕ) → length (kept_free off ids) ≤ (16380 - off - 4) / 8
unfolding kept_free
length-kept_free off ids = ground (arith, length-take ((16380 - off - 4) / 8) ids)

length-free_bytes : (ids : List ℕ) → length (free_bytes ids) ≡ 8 * length ids
unfolding free_bytes
length-free_bytes [] = omega arith
length-free_bytes (id ∷ ids) =
    omega (arith, length-append (be 8 id) (free_bytes ids), length-be 8 id, length-free_bytes ids)

-- The kept free list is read back; close to the end of the page it is empty.
pub read_free-next :
    (off : ℕ) (page : List ℕ) (free : List ℕ) (zeros : List ℕ)
    → off ≤ 16380
    → All (λ id. id < 2 ^ 64) free
    → length free ≤ (16380 - off - 4) / 8
    → At off page (be 4 (length free % 2 ^ 32) ++ (free_bytes free ++ zeros))
    → read_free off page ≡ ok free
unfolding read_free free_ids
read_free-next off page free zeros bound small room at_off =
    elim (Bool-cases (leb (off + 4) 16380)) [
      | inl inside ↦
          let (first, next) =
            word_at-next off 4 (length free % 2 ^ 32) page (free_bytes free ++ zeros) (omega arith)
              at_off in
          rw inside (
            bind-eq _ _ _ _ (first ∙ ap ok (whole inside))
              (rw (fits inside) (read_ids-next free (off + 4) page zeros small next)))
      | inr behind ↦ rw behind (nothing behind free room)
    ]
  where
    whole : leb (off + 4) 16380 ≡ true → length free % 2 ^ 32 ≡ length free
    whole inside = omega (arith, room)

    fits : leb (off + 4) 16380 ≡ true → leb (off + 4 + 8 * length free) 16380 ≡ true
    fits inside = ground (arith, inside, room)

    nothing :
        leb (off + 4) 16380 ≡ false
        → (ids : List ℕ) → length ids ≤ (16380 - off - 4) / 8
        → ◌≡◌ {A = Result CatalogError (List ℕ)} (ok []) (ok ids)
    nothing behind [] h = refl
    nothing behind (x ∷ xs) h = absurd (ground (arith, behind, h))
