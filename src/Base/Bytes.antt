-- ===== src/Base/Bytes.antt =====
-- Big-endian words in byte lists, as `encoding/binary` writes and reads them.
use Prim.Native.Nat.{ℕ, zero, suc, ◌+◌, ◌*◌, ◌/◌, ◌%◌, ◌^◌, ◌<◌}
use mathlib.Core.Path.{◌≡◌, refl, ◌∙◌}
use mathlib.Core.List.{List, [], ◌∷◌, ◌++◌}
use mathlib.Core.List.{append-nil, append_assoc}
use native.Mathlib.Nat.{pow-suc, add-zero}
use native.Mathlib.Omega.{arith}
use masterkeeper.Base.Lists.{length, All, length-append}

abbrev pub IsByte : ℕ → Type 0
IsByte b = b < 256

-- The lowest `w` bytes of `n`, the highest of them first.
unfoldable pub be : ℕ → ℕ → List ℕ
be zero n = []
be (suc w) n = be w (n / 256) ++ (n % 256) ∷ []

unfoldable pub from_be_acc : ℕ → List ℕ → ℕ
from_be_acc acc [] = acc
from_be_acc acc (b ∷ bs) = from_be_acc (acc * 256 + b) bs

unfoldable pub from_be : List ℕ → ℕ
unfolding from_be_acc
from_be bs = from_be_acc 0 bs

pub length-be : (w n : ℕ) → length (be w n) ≡ w
unfolding be
length-be zero n = refl
length-be (suc w) n =
    length-append (be w (n / 256)) ((n % 256) ∷ []) ∙ omega (arith, length-be w (n / 256))

from_be_acc-append :
    (acc : ℕ) (xs : List ℕ) (b : ℕ) → from_be_acc acc (xs ++ b ∷ []) ≡ from_be_acc acc xs * 256 + b
unfolding from_be_acc
from_be_acc-append acc [] b = refl
from_be_acc-append acc (x ∷ xs) b = from_be_acc-append (acc * 256 + x) xs b

-- Reading back what was written.
pub from_be-be : (w n : ℕ) → n < 256 ^ w → from_be (be w n) ≡ n
unfolding from_be be
from_be-be zero n h = omega arith
from_be-be (suc w) n h =
    from_be_acc-append 0 (be w (n / 256)) (n % 256)
    ∙ omega (arith, from_be-be w (n / 256) (omega (arith, pow-suc 256 w)))

-- The bytes of a word are bytes.
pub be-IsByte : (w n : ℕ) → All IsByte (be w n)
unfolding be
be-IsByte zero n = tt
be-IsByte (suc w) n = All-snoc (be w (n / 256)) (n % 256) (be-IsByte w (n / 256)) (omega arith)
  where
    All-snoc : (xs : List ℕ) (b : ℕ) → All IsByte xs → IsByte b → All IsByte (xs ++ b ∷ [])
    All-snoc [] b h k = (k, tt)
    All-snoc (x ∷ xs) b h k = (h.0, All-snoc xs b h.1 k)

from_be_acc-lt :
    (acc w n : ℕ) (bs : List ℕ)
    → acc < 256 ^ w
    → All IsByte bs
    → n ≡ w + length bs
    → from_be_acc acc bs < 256 ^ n
unfolding from_be_acc
from_be_acc-lt acc w n [] h bytes e = rw (e, add-zero w) h
from_be_acc-lt acc w n (b ∷ bs) h bytes e =
    from_be_acc-lt (acc * 256 + b) (suc w) n bs (omega (arith, pow-suc 256 w, bytes.0)) bytes.1
      (omega arith)

pub from_be-lt : (bs : List ℕ) → All IsByte bs → from_be bs < 256 ^ length bs
unfolding from_be
from_be-lt bs h = from_be_acc-lt 0 0 (length bs) bs (omega arith) h (omega arith)

be-from_be_acc :
    (acc w n : ℕ) (bs : List ℕ)
    → All IsByte bs
    → n ≡ w + length bs
    → be n (from_be_acc acc bs) ≡ be w acc ++ bs
unfolding from_be_acc be
be-from_be_acc acc w n [] h e = rw (e, add-zero w, append-nil (be w acc))
be-from_be_acc acc w n (b ∷ bs) h e =
    be-from_be_acc (acc * 256 + b) (suc w) n bs h.1 (omega arith)
    ∙ rw (quotient, remainder, append_assoc (be w acc) (b ∷ []) bs)
  where
    quotient : (acc * 256 + b) / 256 ≡ acc
    quotient = omega (arith, h.0)

    remainder : (acc * 256 + b) % 256 ≡ b
    remainder = omega (arith, h.0)

-- Bytes are determined by the word that they are read as.
pub be-from_be : (bs : List ℕ) → All IsByte bs → be (length bs) (from_be bs) ≡ bs
unfolding from_be be
be-from_be bs h = be-from_be_acc 0 0 (length bs) bs h (omega arith)

pub from_be-one : (b : ℕ) → from_be (b ∷ []) ≡ b
unfolding from_be
from_be-one b = omega arith
