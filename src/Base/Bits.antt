-- ===== src/Base/Bits.antt =====
-- `^` and `|` on words of any width, from the digit recursion that the operations stand for.
use Prim.Native.Nat.{
  ℕ, zero, suc, ◌+◌, ◌-◌, ◌*◌, ◌/◌, ◌%◌, ◌≤◌, max, digits, bitwise, bit_or, bit_xor, differ,
  bit_or-bitwise, bit_xor-bitwise,
}
use mathlib.Core.Path.{◌≡◌, refl, ap, sym, ◌∙◌}
use native.Mathlib.Omega.{arith}

module _ (empty : ℕ → ℕ) (digit : ℕ → ℕ → ℕ) where
  -- More fuel than the first word needs changes nothing.
  steady :
      (x y least fuel : ℕ)
      → least ≤ fuel
      → x ≤ least
      → digits empty digit fuel x y ≡ digits empty digit least x y
  steady x y zero fuel room small = by_fuel x fuel small
    where
      by_fuel : (x fuel : ℕ) → x ≤ 0 → digits empty digit fuel x y ≡ digits empty digit zero x y
      by_fuel zero zero small = refl
      by_fuel zero (suc fuel) small = refl
      by_fuel (suc x) fuel small = absurd (omega arith)
  steady x y (suc least) zero room small = absurd (omega arith)
  steady zero y (suc least) (suc fuel) room small = refl
  steady (suc x) y (suc least) (suc fuel) room small =
      ap (λ (front : ℕ). front * 2 + digit (suc x % 2) (y % 2))
        (steady (suc x / 2) (y / 2) least fuel (omega arith) (omega arith))

  last_digit :
      (x y : ℕ)
      → bitwise empty digit (suc x) y
        ≡ bitwise empty digit (suc x / 2) (y / 2) * 2 + digit (suc x % 2) (y % 2)
  last_digit x y =
      ap (λ (front : ℕ). front * 2 + digit (suc x % 2) (y % 2))
        (steady (suc x / 2) (y / 2) (suc x / 2) x (omega arith) (omega arith))

or_digit : (x y : ℕ) → bit_or x y ≡ max (x % 2) (y % 2) + bit_or (x / 2) (y / 2) * 2
or_digit zero y = simp bit_or-bitwise (omega arith)
or_digit (suc x) y = simp bit_or-bitwise (omega (arith, last_digit (λ t. t) max x y))

differ_lem : (a b : ℕ) → differ a b ≡ (a - b) + (b - a)
differ_lem zero b = omega arith
differ_lem (suc a) zero = omega arith
differ_lem (suc a) (suc b) = omega (arith, differ_lem a b)

-- The digit of `^` is the distance of the digits.
bit_xor_step :
    (a b : ℕ) → bit_xor a b ≡ bit_xor (a / 2) (b / 2) * 2 + ((a % 2 - b % 2) + (b % 2 - a % 2))
bit_xor_step zero b = simp bit_xor-bitwise (omega arith)
bit_xor_step (suc a) b = simp (bit_xor-bitwise, ← differ_lem) (last_digit (λ y. y) differ a b)

-- All four go from `a / 2` to `a`; `n` bounds the number of digits left.
bit_xor-bit_xor_fuel : (n a m : ℕ) → a ≤ n → m ≤ n → bit_xor (bit_xor a m) m ≡ a
bit_xor-bit_xor_fuel zero a m p q = ground (arith, bit_xor_step a m, zero_zero a m)
  where
    zero_zero : (a m : ℕ) → a ≤ 0 → m ≤ 0 → bit_xor (bit_xor a m) m ≡ a
    zero_zero zero zero p q = refl
    zero_zero (suc a) m p q = absurd (omega arith)
    zero_zero zero (suc m) p q = absurd (omega arith)
bit_xor-bit_xor_fuel (suc n) a m p q = omega (
  arith,
  bit_xor_step a m,
  bit_xor_step (bit_xor a m) m,
  ap (λ (t : ℕ). bit_xor t (m / 2)) (half a m),
  bit_xor-bit_xor_fuel n (a / 2) (m / 2) (omega arith) (omega arith),
)
  where
    half : (a m : ℕ) → bit_xor a m / 2 ≡ bit_xor (a / 2) (m / 2)
    half a m = omega (arith, bit_xor_step a m)

pub bit_xor-bit_xor : (a m : ℕ) → bit_xor (bit_xor a m) m ≡ a
bit_xor-bit_xor a m = bit_xor-bit_xor_fuel (max a m) a m (omega arith) (omega arith)

pub bit_xor_self : (a : ℕ) → bit_xor a a ≡ 0
bit_xor_self a = go a a (omega arith)
  where
    go : (n a : ℕ) → a ≤ n → bit_xor a a ≡ 0
    go zero zero p = refl
    go zero (suc a) p = absurd (omega arith)
    go (suc n) a p = omega (arith, bit_xor_step a a, go n (a / 2) (omega arith))

-- 0 ^ b is b.
zero-bit_xor : (b : ℕ) → bit_xor 0 b ≡ b
zero-bit_xor b = bit_xor-bitwise 0 b

pub bit_xor-zero : (a : ℕ) → bit_xor a 0 ≡ a
bit_xor-zero a = go a a (omega arith)
  where
    go : (n a : ℕ) → a ≤ n → bit_xor a 0 ≡ a
    go zero zero p = refl
    go zero (suc a) p = absurd (omega arith)
    go (suc n) a p = omega (arith, bit_xor_step a 0, go n (a / 2) (omega arith))

-- Words that differ in no bit are equal.
pub eq_of_bit_xor : (a b : ℕ) → bit_xor a b ≡ 0 → a ≡ b
eq_of_bit_xor a b e = sym (bit_xor-bit_xor a b) ∙ ap (λ (t : ℕ). bit_xor t b) e ∙ zero-bit_xor b

-- `|` is 0 only where both sides are.
pub zero_of_bit_or : (a b : ℕ) → bit_or a b ≡ 0 → (a ≡ 0) × (b ≡ 0)
zero_of_bit_or a b e = go (max a b) a b (omega arith) (omega arith) e
  where
    go : (n a b : ℕ) → a ≤ n → b ≤ n → bit_or a b ≡ 0 → (a ≡ 0) × (b ≡ 0)
    go zero a b p q e = omega arith
    go (suc n) a b p q e = omega (
      arith,
      or_digit a b,
      go n (a / 2) (b / 2) (omega arith) (omega arith) (omega (arith, or_digit a b)),
    )
