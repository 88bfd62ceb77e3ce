-- ===== src/Mips/Mult/Loop.antt =====
-- The loop of `Mult` of machine/mipssim.cc: what is added up.
use pku_os_lab.Common.{
  ℕ, zero, suc, ◌+◌, ◌-◌, ◌*◌, ◌/◌, ◌%◌, ◌^◌, ◌≤◌, ◌<◌, ◌≡◌, refl, ◌∙◌, ap, ◌==◌, Bool-cases, inl,
  inr, arith,
}
use pku_os_lab.Common.Bits.{double}
use native.Mathlib.Nat.{one-le-pow}
use pku_os_lab.Mips.Word.{negative, shift_right}
use pku_os_lab.Mips.Mult.{Double, add_double, shift_double, mult_loop}

-- The number that a double word stands for.
abbrev pub value : Double → ℕ
value r = r.hi * 2 ^ 32 + r.lo

pub record AreWords (r : Double) : Type 0 where
  pub high : r.hi < 2 ^ 32
  pub low : r.lo < 2 ^ 32

add_double-value :
    (acc b : Double)
    → AreWords acc
    → AreWords b
    → value acc + value b < 2 ^ 64
    → (value (add_double acc b) ≡ value acc + value b) × AreWords (add_double acc b)
add_double-value acc b h g small = (ground arith, record { high = ground arith; low = omega arith })

shift_double-value :
    (b : Double)
    → AreWords b
    → value b < 2 ^ 63
    → (value (shift_double b) ≡ 2 * value b) × AreWords (shift_double b)
shift_double-value b h small = (ground arith, record { high = ground arith; low = omega arith })

-- The lowest `n` binary digits of a number.
low_digits : ℕ → ℕ → ℕ
low_digits zero a = 0
low_digits (suc n) a = a % 2 + 2 * low_digits n (a / 2)

low_digits-zero : (n : ℕ) → low_digits n 0 ≡ 0
unfolding low_digits
low_digits-zero zero = refl
low_digits-zero (suc n) = omega (arith, low_digits-zero n)

low_digits-lt : (n a : ℕ) → a < 2 ^ n → low_digits n a ≡ a
unfolding low_digits
low_digits-lt zero a h = omega arith
low_digits-lt (suc n) a h =
    omega (arith, double n, low_digits-lt n (a / 2) (omega (arith, double n)))

low_digits-above : (n m a : ℕ) → n ≤ m → low_digits n (a + 2 ^ m) ≡ low_digits n a
unfolding low_digits
low_digits-above zero m a h = refl
low_digits-above (suc n) zero a h = absurd (omega arith)
low_digits-above (suc n) (suc m) a h =
    let halves : (a + 2 ^ suc m) / 2 ≡ a / 2 + 2 ^ m = omega (arith, double m) in
    rw halves (omega (arith, double m, low_digits-above n m (a / 2) (omega arith)))

low_digits-shift_right :
    (n a : ℕ) → n < 32 → a < 2 ^ 32 → low_digits n (shift_right a 1) ≡ low_digits n (a / 2)
low_digits-shift_right n a h small = elim (Bool-cases (negative a)) [
  | inr plus ↦ rw plus refl
  | inl minus ↦
      let copied : 2 ^ 32 - 1 - (2 ^ 32 - 1 - a) / 2 ^ 1 ≡ a / 2 + 2 ^ 31 = omega arith in
      rw minus (ap (low_digits n) copied ∙ low_digits-above n 31 (a / 2) (omega arith))
]

expand : (d q b : ℕ) → (d + 2 * q) * b ≡ d * b + q * (2 * b)
expand d q b = grind arith

shift_right-lt : (a : ℕ) → a < 2 ^ 32 → shift_right a 1 < 2 ^ 32
shift_right-lt a h = ground arith

room_twice : (v n : ℕ) → v * 2 ^ suc n ≡ 2 * v * 2 ^ n
room_twice v n = rw (double n) (grind arith)

room_half : (v n : ℕ) → v * 2 ^ suc n < 2 ^ 64 → v < 2 ^ 63
room_half v n h =
    let grows : 2 * v * 1 ≤ 2 * v * 2 ^ n = le_mul (2 * v) (2 ^ n) (one-le-pow n 2 (omega arith)) in
    omega (arith, room_twice v n)
  where
    le_mul : (x p : ℕ) → 1 ≤ p → x * 1 ≤ x * p
    le_mul x p h = grind arith

-- What is in `acc` and what the rounds that are left add make the product.
mult_loop-value :
    (n a p : ℕ) (b acc : Double)
    → n ≤ 32
    → a < 2 ^ 32
    → AreWords b
    → AreWords acc
    → value b * 2 ^ n < 2 ^ 64
    → p < 2 ^ 64
    → value acc + low_digits n a * value b ≡ p
    → (value (mult_loop n a b acc) ≡ p) × AreWords (mult_loop n a b acc)
unfolding mult_loop low_digits
mult_loop-value zero a p b acc le small wb wacc room fits total = (omega (arith, total), wacc)
mult_loop-value (suc n) a p b acc le small wb wacc room fits total =
    let q = low_digits n (a / 2) in
    let parts : value acc + (a % 2 * value b + q * (2 * value b)) ≡ p =
      omega (arith, total, expand (a % 2) q (value b)) in
    let (doubled, wb') = shift_double-value b wb (room_half (value b) n room) in
    let room' : value (shift_double b) * 2 ^ n < 2 ^ 64 =
      rw doubled (omega (arith, room, room_twice (value b) n)) in
    let digits : low_digits n (shift_right a 1) ≡ q =
      low_digits-shift_right n a (omega arith) small in
    elim (Bool-cases (a % 2 == 1)) [
      | inr even ↦
          let bit : a % 2 ≡ 0 = ground (arith, even) in
          let parts' : value acc + (0 * value b + q * (2 * value b)) ≡ p = rw bit at parts in
          rw even (
            mult_loop-value n (shift_right a 1) p (shift_double b) acc (omega arith)
              (shift_right-lt a small) wb' wacc room' fits
              (rw (digits, doubled) (omega (arith, parts'))))
      | inl odd ↦
          let bit : a % 2 ≡ 1 = ground (arith, odd) in
          let parts' : value acc + (1 * value b + q * (2 * value b)) ≡ p = rw bit at parts in
          let (summed, wsum) = add_double-value acc b wacc wb (omega (arith, parts')) in
          elim (Bool-cases (a / 2 == 0)) [
            | inl over ↦
                let none_left : q ≡ 0 =
                  ap (low_digits n) (ground (arith, over)) ∙ low_digits-zero n in
                let parts'' : value acc + (1 * value b + 0 * (2 * value b)) ≡ p =
                  rw none_left at parts' in
                rw (odd, over) (omega (arith, summed, parts''), wsum)
            | inr more ↦
                rw (odd, more)
                  (mult_loop-value n (shift_right a 1) p (shift_double b) (add_double acc b)
                    (omega arith) (shift_right-lt a small) wb' wsum room' fits
                    (rw (digits, doubled, summed) (omega (arith, parts'))))
          ]
    ]

pub product-lt : (x y : ℕ) → x < 2 ^ 32 → y < 2 ^ 32 → x * y < 2 ^ 64
product-lt x y h g =
    let wide : x * y ≤ x * 2 ^ 32 = widen x y (2 ^ 32) (omega (arith, g)) in omega (arith, wide, h)
  where
    widen : (x y z : ℕ) → y ≤ z → x * y ≤ x * z
    widen x y z h = grind arith

pub mult_loop-product :
    (x y : ℕ)
    → x < 2 ^ 32
    → y < 2 ^ 32
    → (value (mult_loop 32 x (record { hi = 0; lo = y }) (record { hi = 0; lo = 0 })) ≡ x * y)
      × AreWords (mult_loop 32 x (record { hi = 0; lo = y }) (record { hi = 0; lo = 0 }))
mult_loop-product x y h g =
    mult_loop-value 32 x (x * y) _ _ (omega arith) h (record { high = omega arith; low = g })
      (record { high = omega arith; low = omega arith }) (omega (arith, g)) (product-lt x y h g)
      (rw (low_digits-lt 32 x h) (omega arith))
