-- ===== src/Base/Words.antt =====
-- Machine words: the little-endian bytes of a word, and `i64` as its two's-complement pattern.
use Prim.Native.Nat.{ℕ, zero, suc, ◌+◌, ◌-◌, ◌*◌, ◌/◌, ◌%◌, ◌^◌, ◌<◌}
use mathlib.Core.Path.{◌≡◌, refl, ap}
use mathlib.Core.Bool.{Bool}
use mathlib.Core.List.{List, [], ◌∷◌}
use native.Mathlib.Nat.{pow-suc}
use native.Mathlib.Omega.{arith}
use apfsds_rs.Base.Tests.{ltb, if◌then◌else◌}
use apfsds_rs.Base.Lists.{length}

abbrev pub IsU64 : ℕ → Type 0
IsU64 n = n < 2 ^ 64

-- `to_le_bytes` of a word of `n` bytes.
abbrev pub to_le_bytes : ℕ → ℕ → List ℕ
to_le_bytes zero v = []
to_le_bytes (suc n) v = (v % 256) ∷ to_le_bytes n (v / 256)

abbrev pub from_le_bytes : List ℕ → ℕ
from_le_bytes [] = 0
from_le_bytes (b ∷ bs) = b + 256 * from_le_bytes bs

pub length-to_le_bytes : (n v : ℕ) → length (to_le_bytes n v) ≡ n
length-to_le_bytes zero v = refl
length-to_le_bytes (suc n) v = ap suc (length-to_le_bytes n (v / 256))

pub from_le_bytes-to_le_bytes : (n v : ℕ) → v < 256 ^ n → from_le_bytes (to_le_bytes n v) ≡ v
from_le_bytes-to_le_bytes zero v h = omega arith
from_le_bytes-to_le_bytes (suc n) v h =
    omega
      (arith, pow-suc 256 n, from_le_bytes-to_le_bytes n (v / 256) (omega (arith, pow-suc 256 n)))

-- An `i64` is its bit pattern, below 2 ^ 64; `as i64` on a `u64` keeps the pattern.
-- Arithmetic wraps, as it does in a build without overflow checks.
abbrev pub i64_sub : ℕ → ℕ → ℕ
i64_sub a b = (a + 2 ^ 64 - b) % 2 ^ 64

-- The pattern of `i64::MIN` is its own absolute value.
abbrev pub i64_abs : ℕ → ℕ
i64_abs x = if ltb x (2 ^ 63) then x else 2 ^ 64 - x

-- `x > y` on the signed readings.
abbrev pub i64_gt : ℕ → ℕ → Bool
i64_gt x y = ltb ((y + 2 ^ 63) % 2 ^ 64) ((x + 2 ^ 63) % 2 ^ 64)
