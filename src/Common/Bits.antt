-- ===== src/Common/Bits.antt =====
-- The binary digits of a number, and what `|`, `&` and `~` do to each.
use Prim.Native.Nat.{
  ℕ, zero, suc, ◌+◌, ◌-◌, ◌*◌, ◌/◌, ◌%◌, ◌^◌, ◌≤◌, ◌<◌, min, max, bit_and, bit_or, digits, bitwise,
  bit_and-bitwise, bit_or-bitwise, bit_xor, bit_xor-bitwise, differ,
}
use mathlib.Core.Path.{◌≡◌, refl, ap}
use mathlib.Core.Logic.{◌≢◌}
use native.Mathlib.Nat.{pow-suc, one-le-pow}
use native.Mathlib.Omega.{arith}

-- Digit `j` of `a`.
abbrev pub bit : ℕ → ℕ → ℕ
bit a zero = a % 2
bit a (suc j) = bit (a / 2) j

module _ (z : ℕ → ℕ) (f : ℕ → ℕ → ℕ) where
  -- The digit recursion gives one value whatever fuel it has beyond `a`.
  fuel_irrelevant : (k m a b : ℕ) → a ≤ k → a ≤ m → digits z f k a b ≡ digits z f m a b
  fuel_irrelevant zero zero a b h g = refl
  fuel_irrelevant zero (suc m) zero b h g = refl
  fuel_irrelevant (suc k) zero zero b h g = refl
  fuel_irrelevant (suc k) (suc m) zero b h g = refl
  fuel_irrelevant zero (suc m) (suc a) b h g = absurd (omega arith)
  fuel_irrelevant (suc k) zero (suc a) b h g = absurd (omega arith)
  fuel_irrelevant (suc k) (suc m) (suc a) b h g =
      rw (fuel_irrelevant k m (suc a / 2) (b / 2) (omega arith) (omega arith))

  bitwise_low :
      (a b : ℕ)
      → bitwise z f (suc a) b ≡ bitwise z f (suc a / 2) (b / 2) * 2 + f (suc a % 2) (b % 2)
  bitwise_low a b =
      rw (fuel_irrelevant a (suc a / 2) (suc a / 2) (b / 2) (omega arith) (omega arith))

pub and_low : (a b : ℕ) → bit_and a b ≡ bit_and (a / 2) (b / 2) * 2 + min (a % 2) (b % 2)
and_low zero b = simp bit_and-bitwise (omega arith)
and_low (suc a) b = simp bit_and-bitwise (bitwise_low (λ y. 0) min a b)

pub or_low : (a b : ℕ) → bit_or a b ≡ bit_or (a / 2) (b / 2) * 2 + max (a % 2) (b % 2)
or_low zero b = simp bit_or-bitwise (omega arith)
or_low (suc a) b = simp bit_or-bitwise (bitwise_low (λ y. y) max a b)

pub bit-le : (a j : ℕ) → bit a j ≤ 1
bit-le a zero = omega arith
bit-le a (suc j) = bit-le (a / 2) j

pub bit-and : (a b j : ℕ) → bit (bit_and a b) j ≡ min (bit a j) (bit b j)
bit-and a b zero = omega (arith, and_low a b)
bit-and a b (suc j) = rw halves (bit-and (a / 2) (b / 2) j)
  where
    halves : bit_and a b / 2 ≡ bit_and (a / 2) (b / 2)
    halves = omega (arith, and_low a b)

pub bit-or : (a b j : ℕ) → bit (bit_or a b) j ≡ max (bit a j) (bit b j)
bit-or a b zero = omega (arith, or_low a b)
bit-or a b (suc j) = rw halves (bit-or (a / 2) (b / 2) j)
  where
    halves : bit_or a b / 2 ≡ bit_or (a / 2) (b / 2)
    halves = omega (arith, or_low a b)

pub double : (k : ℕ) → 2 ^ suc k ≡ 2 * 2 ^ k
double k = omega (arith, pow-suc 2 k)

half_pow : (k : ℕ) → 2 ^ suc k / 2 ≡ 2 ^ k
half_pow k = omega (arith, double k)

bit-zero : (j : ℕ) → bit 0 j ≡ 0
bit-zero zero = refl
bit-zero (suc j) = bit-zero j

pub bit-pow_self : (k : ℕ) → bit (2 ^ k) k ≡ 1
bit-pow_self zero = refl
bit-pow_self (suc k) = rw half_pow (bit-pow_self k)

pub bit-pow_ne : (k j : ℕ) → k ≢ j → bit (2 ^ k) j ≡ 0
bit-pow_ne zero zero h = absurd (h refl)
bit-pow_ne zero (suc j) h = bit-zero j
bit-pow_ne (suc k) zero h = omega (arith, double k)
bit-pow_ne (suc k) (suc j) h = rw half_pow (bit-pow_ne k j (λ e. h (ap suc e)))

-- `~a` in `w` binary digits.
abbrev pub complement : ℕ → ℕ → ℕ
complement w a = 2 ^ w - 1 - a

pub bit-complement : (w a j : ℕ) → a < 2 ^ w → j < w → bit (complement w a) j + bit a j ≡ 1
bit-complement zero a j h lt = absurd (omega arith)
bit-complement (suc w) a zero h lt = omega (arith, double w, one-le-pow w 2)
bit-complement (suc w) a (suc j) h lt =
    rw halves (bit-complement w (a / 2) j (omega (arith, double w)) (omega arith))
  where
    halves : complement (suc w) a / 2 ≡ complement w (a / 2)
    halves = omega (arith, double w, one-le-pow w 2)

pub and-le : (k a b : ℕ) → a < 2 ^ k → bit_and a b < 2 ^ k
and-le zero zero b h = omega (arith, and_low 0 b, bit_and-bitwise 0 b)
and-le zero (suc a) b h = absurd (omega arith)
and-le (suc k) a b h =
    omega (arith, and_low a b, double k, and-le k (a / 2) (b / 2) (omega (arith, double k)))

pub or-lt : (k a b : ℕ) → a < 2 ^ k → b < 2 ^ k → bit_or a b < 2 ^ k
or-lt zero zero zero h g = omega arith
or-lt zero zero (suc b) h g = absurd (omega arith)
or-lt zero (suc a) b h g = absurd (omega arith)
or-lt (suc k) a b h g = omega (
  arith,
  or_low a b,
  double k,
  or-lt k (a / 2) (b / 2) (omega (arith, double k)) (omega (arith, double k)),
)

and-zero_below : (n a : ℕ) → a ≤ n → bit_and a 0 ≡ 0
and-zero_below n zero h = refl
and-zero_below zero (suc a) h = absurd (omega arith)
and-zero_below (suc n) (suc a) h =
    omega (arith, and_low (suc a) 0, and-zero_below n (suc a / 2) (omega arith))

-- `a & (1 << k)` is digit `k` in its place.
pub and-pow : (a k : ℕ) → bit_and a (2 ^ k) ≡ bit a k * 2 ^ k
and-pow a zero = omega (arith, and_low a 1, and-zero_below (a / 2) (a / 2) (omega arith))
and-pow a (suc k) = omega (
  arith,
  and_low a (2 ^ suc k),
  double k,
  ap (λ (t : ℕ). bit_and (a / 2) t) (half_pow k),
  and-pow (a / 2) k,
  ap (λ (t : ℕ). bit (a / 2) k * t) (double k),
)

pub pow-lt : (k w : ℕ) → k < w → 2 ^ k < 2 ^ w
pow-lt zero zero h = absurd (omega arith)
pow-lt zero (suc w) h = omega (arith, double w, one-le-pow w 2)
pow-lt (suc k) zero h = absurd (omega arith)
pow-lt (suc k) (suc w) h = omega (arith, double w, double k, pow-lt k w (omega arith))

xor_low : (a b : ℕ) → bit_xor a b ≡ bit_xor (a / 2) (b / 2) * 2 + differ (a % 2) (b % 2)
xor_low zero b = simp bit_xor-bitwise (omega arith)
xor_low (suc a) b = simp bit_xor-bitwise (bitwise_low (λ y. y) differ a b)

differ-le : (x y : ℕ) → x ≤ 1 → y ≤ 1 → differ x y ≤ 1
differ-le zero y h g = g
differ-le (suc x) zero h g = h
differ-le (suc x) (suc y) h g = differ-le x y (omega arith) (omega arith)

pub xor-lt : (k a b : ℕ) → a < 2 ^ k → b < 2 ^ k → bit_xor a b < 2 ^ k
xor-lt zero zero zero h g = omega arith
xor-lt zero zero (suc b) h g = absurd (omega arith)
xor-lt zero (suc a) b h g = absurd (omega arith)
xor-lt (suc k) a b h g = omega (
  arith,
  xor_low a b,
  differ-le (a % 2) (b % 2) (omega arith) (omega arith),
  double k,
  xor-lt k (a / 2) (b / 2) (omega (arith, double k)) (omega (arith, double k)),
)
