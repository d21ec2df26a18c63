-- ===== src/Storage/File.antt =====
-- What a read sees after a write, on the bytes of one file.
use masterkeeper.Base.{
  ℕ, ◌+◌, ◌≤◌, List, [], ◌∷◌, ◌++◌, ◌≡◌, ap, ◌∙◌, length, take, drop, length-append, length-take,
  arith,
}
use mathlib.Core.List.{append_assoc}
use masterkeeper.Base.Slice.{
  slice, take-append_le, slice_middle, slice-append, slice-take, take-append-drop,
}
use masterkeeper.Base.Result.{ok}
use native.Mathlib.Nat.{add-zero}
use masterkeeper.Storage.{write_at, read_at}

pub write_at-eq :
    (f : List ℕ) (off : ℕ) (bytes : List ℕ)
    → off ≤ length f
    → write_at f off bytes ≡ take off f ++ (bytes ++ drop (off + length bytes) f)
unfolding write_at
write_at-eq f off bytes h =
    ap (λ t. t ++ (bytes ++ drop (off + length bytes) f)) (take-append_le off f _ h)

pub length-write_at :
    (f : List ℕ) (off : ℕ) (bytes : List ℕ)
    → off ≤ length f
    → off + length bytes ≤ length (write_at f off bytes)
length-write_at f off bytes h =
    rw (write_at-eq f off bytes h, length-append, length-append, length-take) (omega arith)

-- The bytes written are read back.
pub read_at-write_at :
    (f : List ℕ) (off : ℕ) (bytes rest : List ℕ) (n : ℕ)
    → off ≤ length f
    → n ≡ length bytes
    → read_at (write_at f off (bytes ++ rest)) off n ≡ ok bytes
unfolding read_at
read_at-write_at f off [] rest n h e = ground arith
read_at-write_at f off (b ∷ bs) rest n h e = ground (
  arith,
  length-write_at f off ((b ∷ bs) ++ rest) h,
  length-append (b ∷ bs) rest,
  ap (slice off n) (
      write_at-eq f off ((b ∷ bs) ++ rest) h
      ∙ ap (λ t. take off f ++ t) (append_assoc (b ∷ bs) rest _)),
  slice_middle off n (take off f) (b ∷ bs) (rest ++ drop (off + length ((b ∷ bs) ++ rest)) f)
      (omega (arith, length-take off f)) e,
)

-- Bytes in front of a write are read as before.
pub read_at-write_at_before :
    (f : List ℕ) (off : ℕ) (bytes : List ℕ) (at n : ℕ)
    → off ≤ length f
    → at + n ≤ off
    → read_at (write_at f off bytes) at n ≡ read_at f at n
unfolding read_at
read_at-write_at_before f off bytes at n h k = ground (
  arith,
  length-write_at f off bytes h,
  ap (slice at n) (write_at-eq f off bytes h),
  slice-append at n (take off f) (bytes ++ drop (off + length bytes) f)
      (omega (arith, length-take off f)),
  slice-take at n off f k h,
)

pub write_at-nil : (f : List ℕ) (off : ℕ) → off ≤ length f → write_at f off [] ≡ f
write_at-nil f off h = write_at-eq f off [] h ∙ rw (add-zero off) (take-append-drop off f)

-- The middle part of a file is read back.
pub read_at_middle :
    (xs ys zs : List ℕ) (off n : ℕ)
    → off ≡ length xs
    → n ≡ length ys
    → read_at (xs ++ (ys ++ zs)) off n ≡ ok ys
unfolding read_at
read_at_middle xs [] zs off n p q = ground arith
read_at_middle xs (y ∷ ys) zs off n p q = ground (
  arith,
  slice_middle off n xs (y ∷ ys) zs p q,
  length-append xs ((y ∷ ys) ++ zs),
  length-append (y ∷ ys) zs,
)
