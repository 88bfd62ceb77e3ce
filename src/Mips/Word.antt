-- ===== src/Mips/Word.antt =====
-- machine/mipssim.cc: what C does to an `int` or an `unsigned int`, on the 32-bit words that stand for
-- them. `&` with a mask of low ones is a remainder and `>>` of an unsigned word a quotient.
use pku_os_lab.Common.{
  ℕ, ◌+◌, ◌-◌, ◌*◌, ◌/◌, ◌%◌, ◌^◌, Bool, not, true, false, ltb, leb, if◌then◌else◌,
}

-- `x & SIGN_BIT`, which says that `x` < 0
abbrev pub negative : ℕ → Bool
negative x = leb (2 ^ 31) x

-- `(x ^ y) & SIGN_BIT`
abbrev pub differ : Bool → Bool → Bool
differ true b = not b
differ false b = b

abbrev pub add : ℕ → ℕ → ℕ
add x y = (x + y) % 2 ^ 32

abbrev pub sub : ℕ → ℕ → ℕ
sub x y = (x + 2 ^ 32 - y) % 2 ^ 32

-- `-x`
abbrev pub negate : ℕ → ℕ
negate x = (2 ^ 32 - x) % 2 ^ 32

-- `x < y` of two `int`s
abbrev pub less : ℕ → ℕ → Bool
less x y = ltb ((x + 2 ^ 31) % 2 ^ 32) ((y + 2 ^ 31) % 2 ^ 32)

-- `x << s` for 0 ≤ `s` < 32
abbrev pub shift_left : ℕ → ℕ → ℕ
shift_left x s = x * 2 ^ s % 2 ^ 32

-- `x >> s` of an `int`, which copies the sign
abbrev pub shift_right : ℕ → ℕ → ℕ
shift_right x s = if negative x then 2 ^ 32 - 1 - (2 ^ 32 - 1 - x) / 2 ^ s else x / 2 ^ s

-- The absolute value of an `int`, as an unsigned word.
abbrev pub magnitude : ℕ → ℕ
magnitude x = if negative x then 2 ^ 32 - x else x

-- `x / y` and `x % y` of two `int`s, which round to 0.
abbrev pub quotient : ℕ → ℕ → ℕ
quotient x y =
    let q = magnitude x / magnitude y in if differ (negative x) (negative y) then negate q else q

abbrev pub remainder : ℕ → ℕ → ℕ
remainder x y = let r = magnitude x % magnitude y in if negative x then negate r else r
