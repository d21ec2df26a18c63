-- ===== src/Base/Int.antt =====
-- Signed machine integers: `signed w n` is the two's complement reading of `n` in `w` bits, and
-- `unsigned w z` the bit pattern of `z`.
use Prim.Native.Nat.{ℕ, ◌-◌, ◌^◌, ◌%◌, ◌<◌}
use mathlib.Core.Path.{◌≡◌}
use native.Mathlib.Omega.{arith}
use masterkeeper.Base.Tests.{ltb, if◌then◌else◌}

-- `negsuc n` is -(n + 1).
pub data ℤ : Type 0 where
  pos : ℕ → ℤ
  negsuc : ℕ → ℤ

-- The conversions `int32(n)` and `int64(n)`.
abbrev pub signed32 : ℕ → ℤ
signed32 n = let r = n % 2 ^ 32 in if ltb r (2 ^ 31) then pos r else negsuc (2 ^ 32 - r - 1)

abbrev pub signed64 : ℕ → ℤ
signed64 n = let r = n % 2 ^ 64 in if ltb r (2 ^ 63) then pos r else negsuc (2 ^ 64 - r - 1)

-- The conversions `uint32(z)` and `uint64(z)`.
abbrev pub unsigned32 : ℤ → ℕ
unsigned32 (pos n) = n % 2 ^ 32
unsigned32 (negsuc n) = 2 ^ 32 - 1 - n % 2 ^ 32

abbrev pub unsigned64 : ℤ → ℕ
unsigned64 (pos n) = n % 2 ^ 64
unsigned64 (negsuc n) = 2 ^ 64 - 1 - n % 2 ^ 64

-- The values of `int32` and `int64`.
abbrev pub IsInt32 : ℤ → Type 0
IsInt32 (pos n) = n < 2 ^ 31
IsInt32 (negsuc n) = n < 2 ^ 31

abbrev pub IsInt64 : ℤ → Type 0
IsInt64 (pos n) = n < 2 ^ 63
IsInt64 (negsuc n) = n < 2 ^ 63

pub signed32-pos : (n : ℕ) → n < 2 ^ 31 → signed32 n ≡ pos n
signed32-pos n h = ground arith

pub signed64-pos : (n : ℕ) → n < 2 ^ 63 → signed64 n ≡ pos n
signed64-pos n h = ground arith

pub signed32-unsigned32 : (z : ℤ) → IsInt32 z → signed32 (unsigned32 z) ≡ z
signed32-unsigned32 (pos n) h = ground arith
signed32-unsigned32 (negsuc n) h = ground arith

pub signed64-unsigned64 : (z : ℤ) → IsInt64 z → signed64 (unsigned64 z) ≡ z
signed64-unsigned64 (pos n) h = ground arith
signed64-unsigned64 (negsuc n) h = ground arith

pub unsigned32-lt : (z : ℤ) → unsigned32 z < 2 ^ 32
unsigned32-lt (pos n) = omega arith
unsigned32-lt (negsuc n) = omega arith

pub unsigned64-lt : (z : ℤ) → unsigned64 z < 2 ^ 64
unsigned64-lt (pos n) = omega arith
unsigned64-lt (negsuc n) = omega arith

pub unsigned64-signed64 : (n : ℕ) → n < 2 ^ 64 → unsigned64 (signed64 n) ≡ n
unsigned64-signed64 n h = ground arith

pub signed64-IsInt64 : (n : ℕ) → IsInt64 (signed64 n)
signed64-IsInt64 n = ground arith

pub signed32-eq-pos : (z n : ℕ) → z < 2 ^ 32 → signed32 z ≡ pos n → z ≡ n
signed32-eq-pos z n h e = ground arith
