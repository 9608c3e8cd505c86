-- ===== src/Common/Bits.antt =====
-- `x & (2^k - 1)` is a remainder, and `(hi << k) | lo` is a sum where `lo` has at most `k` bits.
use Prim.Native.Nat.{
  ℕ, zero, suc, ◌+◌, ◌-◌, ◌*◌, ◌/◌, ◌%◌, ◌^◌, ◌≤◌, ◌<◌, min, max, bit_and, bit_or, digits,
  bit_and-bitwise, bit_or-bitwise,
}
use mathlib.Core.Path.{◌≡◌, refl, ap, ◌∙◌}
use native.Mathlib.Nat.{pow-suc, one-le-pow, mod-eq_of_lt}
use native.Mathlib.Omega.{arith}

-- The recursion by which the library defines the operations: any two amounts of fuel that reach the
-- end of the first number agree.
module _ (end : ℕ → ℕ) (bit : ℕ → ℕ → ℕ) where
  enough : (m n x y : ℕ) → x ≤ m → x ≤ n → digits end bit m x y ≡ digits end bit n x y
  enough zero zero x y h k = refl
  enough (suc m) n zero y h k = at_zero n
    where
      at_zero : (n : ℕ) → digits end bit (suc m) 0 y ≡ digits end bit n 0 y
      at_zero zero = refl
      at_zero (suc n) = refl
  enough zero (suc n) zero y h k = refl
  enough zero (suc n) (suc x) y h k = absurd (omega arith)
  enough (suc m) zero (suc x) y h k = absurd (omega arith)
  enough (suc m) (suc n) (suc x) y h k =
      ap (λ (d : ℕ). d * 2 + bit (suc x % 2) (y % 2))
        (enough m n (suc x / 2) (y / 2) (omega arith) (omega arith))

  lowest :
      (x y : ℕ)
      → digits end bit (suc x) (suc x) y
        ≡ digits end bit (suc x / 2) (suc x / 2) (y / 2) * 2 + bit (suc x % 2) (y % 2)
  lowest x y =
      ap (λ (d : ℕ). d * 2 + bit (suc x % 2) (y % 2))
        (enough x (suc x / 2) (suc x / 2) (y / 2) (omega arith) (omega arith))

pub and_lowest : (x y : ℕ) → bit_and x y ≡ bit_and (x / 2) (y / 2) * 2 + min (x % 2) (y % 2)
and_lowest zero y = omega (arith, bit_and-bitwise 0 y, bit_and-bitwise 0 (y / 2))
and_lowest (suc x) y =
    omega (
      arith,
      lowest (λ b. 0) min x y,
      bit_and-bitwise (suc x) y,
      bit_and-bitwise (suc x / 2) (y / 2),
    )

or_lowest : (x y : ℕ) → bit_or x y ≡ bit_or (x / 2) (y / 2) * 2 + max (x % 2) (y % 2)
or_lowest zero y = omega (arith, bit_or-bitwise 0 y, bit_or-bitwise 0 (y / 2))
or_lowest (suc x) y =
    omega
      (arith, lowest (λ b. b) max x y, bit_or-bitwise (suc x) y, bit_or-bitwise (suc x / 2) (y / 2))

and_zero_below : (n x : ℕ) → x ≤ n → bit_and x 0 ≡ 0
and_zero_below n zero h = refl
and_zero_below zero (suc x) h = absurd (omega arith)
and_zero_below (suc n) (suc x) h =
    omega (arith, and_lowest (suc x) 0, and_zero_below n (suc x / 2) (omega arith))

or_zero_below : (n x : ℕ) → x ≤ n → bit_or x 0 ≡ x
or_zero_below n zero h = refl
or_zero_below zero (suc x) h = absurd (omega arith)
or_zero_below (suc n) (suc x) h =
    omega (arith, or_lowest (suc x) 0, or_zero_below n (suc x / 2) (omega arith))

-- Twice a shifted number.
twice : (x k : ℕ) → x * 2 ^ suc k ≡ 2 * (x * 2 ^ k)
twice x k = ap (λ (t : ℕ). x * t) (pow-suc 2 k) ∙ omega arith

and_of_parts : (k hi lo : ℕ) → lo < 2 ^ k → bit_and (hi * 2 ^ k + lo) (2 ^ k - 1) ≡ lo
and_of_parts zero hi lo h = and_zero_below (hi * 1 + lo) _ (omega arith) ∙ omega arith
and_of_parts (suc k) hi lo h = ground (
  arith,
  and_lowest (hi * 2 ^ suc k + lo) (2 ^ suc k - 1),
  twice hi k,
  pow-suc 2 k,
  and_of_parts k hi (lo / 2),
)

pub bit_and-low_mask : (k x : ℕ) → bit_and x (2 ^ k - 1) ≡ x % 2 ^ k
bit_and-low_mask k x = ground (arith, one-le-pow k 2, and_of_parts k (x / 2 ^ k) (x % 2 ^ k))

pub bit_or-shifted : (k hi lo : ℕ) → lo < 2 ^ k → bit_or (hi * 2 ^ k) lo ≡ hi * 2 ^ k + lo
bit_or-shifted zero hi lo h = ground (arith, or_zero_below (hi * 1) (hi * 1))
bit_or-shifted (suc k) hi lo h =
    ground
      (arith, or_lowest (hi * 2 ^ suc k) lo, twice hi k, bit_or-shifted k hi (lo / 2) (omega arith))

and_of_high :
    (k j hi lo : ℕ)
    → hi < 2 ^ j
    → lo < 2 ^ k
    → bit_and (hi * 2 ^ k + lo) ((2 ^ j - 1) * 2 ^ k) ≡ hi * 2 ^ k
and_of_high zero j hi lo h h' =
    let plain : hi * 1 + lo ≡ hi = omega arith in
    let mask : (2 ^ j - 1) * 1 ≡ 2 ^ j - 1 = omega arith in
    rw (plain, mask) (bit_and-low_mask j hi ∙ mod-eq_of_lt {n = hi} {m = 2 ^ j} h ∙ omega arith)
and_of_high (suc k) j hi lo h h' = ground (
  arith,
  and_lowest (hi * 2 ^ suc k + lo) ((2 ^ j - 1) * 2 ^ suc k),
  twice hi k,
  twice (2 ^ j - 1) k,
  pow-suc 2 k,
  and_of_high k j hi (lo / 2),
)

-- The mask that clears the lowest `k` bits of a number of `j + k` bits.
pub bit_and-high_mask :
    (k j x : ℕ) → x / 2 ^ k < 2 ^ j → bit_and x ((2 ^ j - 1) * 2 ^ k) ≡ x / 2 ^ k * 2 ^ k
bit_and-high_mask k j x h = ground (arith, one-le-pow k 2, and_of_high k j (x / 2 ^ k) (x % 2 ^ k))
