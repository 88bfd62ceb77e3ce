-- ===== src/Mips/Mult/Product.antt =====
-- `Mult` of machine/mipssim.cc against the product of the numbers.
use pku_os_lab.Common.{
  ℕ, ◌+◌, ◌-◌, ◌*◌, ◌%◌, ◌^◌, ◌≤◌, ◌<◌, ◌≡◌, refl, ◌∙◌, sym, ap, Bool, true, false, ◌&&◌, ◌||◌,
  ◌==◌, if◌then◌else◌, Bool-cases, inl, inr, arith,
}
use native.Mathlib.Nat.{mul_comm}
use pku_os_lab.Mips.Word.{negative, negate}
use pku_os_lab.Mips.Mult.{Double, negate_double, mult}
use pku_os_lab.Mips.Mult.Loop.{value, AreWords, product-lt, mult_loop-product}

negate_double-value :
    (r : Double)
    → AreWords r
    → (value (negate_double r) ≡ (2 ^ 64 - value r) % 2 ^ 64) × AreWords (negate_double r)
negate_double-value r h = (ground arith, record { high = ground arith; low = omega arith })

-- A word as a double word: with zeros in front, or with copies of its sign.
abbrev pub extend : Bool → ℕ → ℕ
extend signed_arith x = if signed_arith && negative x then x + (2 ^ 64 - 2 ^ 32) else x

-- The products of numbers of which one or both are negative, modulo 2 ^ 64.
one_negative :
    (x y : ℕ)
    → 0 < x
    → x < 2 ^ 64
    → x * y < 2 ^ 64
    → (2 ^ 64 - x) * y % 2 ^ 64 ≡ (2 ^ 64 - x * y) % 2 ^ 64
one_negative x y pos small fits =
    let whole : (2 ^ 64 - x) * y + x * y ≡ 2 ^ 64 * y = apart (2 ^ 64) x y (omega (arith, small)) in
    omega (arith, whole, fits)
  where
    apart : (m x y : ℕ) → x ≤ m → (m - x) * y + x * y ≡ m * y
    apart m x y h = grind arith

two_negative :
    (x y : ℕ)
    → x < 2 ^ 64
    → y < 2 ^ 64
    → x * y < 2 ^ 64
    → (2 ^ 64 - x) * (2 ^ 64 - y) % 2 ^ 64 ≡ x * y
two_negative x y h g fits =
    let whole : (2 ^ 64 - x) * (2 ^ 64 - y) + 2 ^ 64 * x + 2 ^ 64 * y ≡ 2 ^ 64 * 2 ^ 64 + x * y =
      apart (2 ^ 64) x y (omega (arith, h)) (omega (arith, g)) in
    omega (arith, whole, fits)
  where
    ring : (u v x y : ℕ) → u * v + (v + y) * x + (u + x) * y ≡ (u + x) * (v + y) + x * y
    ring u v x y = grind arith

    sums : (u v x y m : ℕ) → u + x ≡ m → v + y ≡ m → u * v + m * x + m * y ≡ m * m + x * y
    sums u v x y m e f =
        let r : u * v + m * x + (u + x) * y ≡ (u + x) * m + x * y = rw f at (ring u v x y) in
        rw e at r

    apart : (m x y : ℕ) → x ≤ m → y ≤ m → (m - x) * (m - y) + m * x + m * y ≡ m * m + x * y
    apart m x y h g = sums (m - x) (m - y) x y m (omega arith) (omega arith)

minus :
    (s : Bool) (a : ℕ)
    → a < 2 ^ 32
    → (s && negative a) ≡ true
    → a + (2 ^ 64 - 2 ^ 32) ≡ 2 ^ 64 - negate a
minus s a h is = ground (arith, h, is)

negate-positive :
    (s : Bool) (a : ℕ)
    → a < 2 ^ 32
    → (s && negative a) ≡ true
    → (0 < negate a) × (negate a < 2 ^ 32)
negate-positive s a h minus = (ground (arith, h, minus), omega arith)

by_sign_left :
    (s : Bool) (a y : ℕ)
    → a < 2 ^ 32
    → (s && negative a) ≡ true
    → negate a * y < 2 ^ 64
    → (2 ^ 64 - negate a * y) % 2 ^ 64 ≡ (a + (2 ^ 64 - 2 ^ 32)) * y % 2 ^ 64
by_sign_left s a y h is fits =
    let (more, small) = negate-positive s a h is in
    rw (minus s a h is) (sym (one_negative (negate a) y more (omega (arith, small)) fits))

zero_product :
    (s : Bool) (a b : ℕ) → (a == 0 || b == 0) ≡ true → 0 ≡ extend s a * extend s b % 2 ^ 64
zero_product s a b h = elim (Bool-cases (a == 0)) [
  | inl here ↦
      let e : a ≡ 0 = ground (arith, here) in rw (ap (extend s) e ∙ extend-zero s) (omega arith)
  | inr other ↦
      let e : b ≡ 0 = ground (arith, other, h) in rw (ap (extend s) e ∙ extend-zero s) (omega arith)
]
  where
    extend-zero : (s : Bool) → extend s 0 ≡ 0
    extend-zero true = refl
    extend-zero false = refl

-- `Mult` of two words gives two words, and the number that the high and the low one make is the
-- product of the arguments modulo 2 ^ 64: as they stand without `signedArith`, and extended with their
-- signs to 64 bits with it.
pub mult-Product :
    (a b : ℕ) (signed_arith : Bool)
    → a < 2 ^ 32
    → b < 2 ^ 32
    → (value (mult a b signed_arith) ≡ extend signed_arith a * extend signed_arith b % 2 ^ 64)
      × AreWords (mult a b signed_arith)
unfolding mult
mult-Product a b s ha hb = elim (Bool-cases (a == 0 || b == 0)) [
  | inl zero_factor ↦
      rw zero_factor
        (zero_product s a b zero_factor, record { high = omega arith; low = omega arith })
  | inr some ↦ elim (Bool-cases (s && negative a)) [
    | inr an ↦ elim (Bool-cases (s && negative b)) [
      | inr bn ↦
          let (product, words) = mult_loop-product a b ha hb in
          rw (some, an, bn) (omega (arith, product, product-lt a b ha hb), words)
      | inl bn ↦
          let (more, small) = negate-positive s b hb bn in
          let (product, words) = mult_loop-product a (negate b) ha small in
          let (negated, words') = negate_double-value _ words in
          rw (some, an, bn)
            (
              negated
                  ∙ rw (product, mul_comm a (negate b), mul_comm a (b + (2 ^ 64 - 2 ^ 32)))
                      (by_sign_left s b a hb bn (product-lt (negate b) a small ha)),
              words',
            )
    ]
    | inl an ↦
        let (more, small) = negate-positive s a ha an in
        elim (Bool-cases (s && negative b)) [
          | inr bn ↦
              let (product, words) = mult_loop-product (negate a) b small hb in
              let (negated, words') = negate_double-value _ words in
              rw (some, an, bn)
                (
                  negated
                      ∙ rw product (by_sign_left s a b ha an (product-lt (negate a) b small hb)),
                  words',
                )
          | inl bn ↦
              let (more', small') = negate-positive s b hb bn in
              let (product, words) = mult_loop-product (negate a) (negate b) small small' in
              rw (some, an, bn)
                (
                  product
                      ∙ rw (minus s a ha an, minus s b hb bn)
                          (sym (
                            two_negative (negate a) (negate b) (omega (arith, small))
                              (omega (arith, small'))
                              (product-lt (negate a) (negate b) small small'))),
                  words,
                )
        ]
  ]
]
