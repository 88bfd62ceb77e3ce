-- ===== src/Mips/Mult.antt =====
-- machine/mipssim.cc, `Mult`: the double-length product, by shifting and adding.
pub mod Loop
pub mod Product
use pku_os_lab.Common.{
  ℕ, zero, suc, ◌+◌, ◌-◌, ◌*◌, ◌/◌, ◌%◌, ◌^◌, Bool, true, false, ◌&&◌, ◌||◌, ltb, leb, ◌==◌,
  if◌then◌else◌,
}
use pku_os_lab.Common.Bits.{complement}
use pku_os_lab.Mips.Word.{add, negative, negate, differ, shift_right}

-- A double word in two registers.
pub record Double : Type 0 where
  pub hi : ℕ
  pub lo : ℕ

-- `lo += bLo; if (lo < bLo) hi += 1; hi += bHi;`
abbrev pub add_double : Double → Double → Double
add_double acc b =
    let lo = add acc.lo b.lo in
    let hi = if ltb lo b.lo then add acc.hi 1 else acc.hi in record { hi = add hi b.hi; lo = lo }

-- `bHi <<= 1; if (bLo & 0x80000000) bHi |= 1; bLo <<= 1;`, where `bHi` is even before the `|=`.
abbrev pub shift_double : Double → Double
shift_double b = record {
  hi = b.hi * 2 % 2 ^ 32 + (if leb (2 ^ 31) b.lo then 1 else 0);
  lo = b.lo * 2 % 2 ^ 32;
}

-- The main loop, with `n` rounds left; `a` is an `int`.
unfoldable pub mult_loop : ℕ → ℕ → Double → Double → Double
mult_loop zero a b acc = acc
mult_loop (suc n) a b acc =
    let acc' = if a % 2 == 1 then add_double acc b else acc in
    let rest = mult_loop n (shift_right a 1) (shift_double b) acc' in
    if a % 2 == 1 && a / 2 == 0 then acc' else rest

-- `hi = ~hi; lo = ~lo; lo++; if (lo == 0) hi++;`
abbrev pub negate_double : Double → Double
negate_double r =
    let hi = complement 32 r.hi in
    let lo = add (complement 32 r.lo) 1 in record { hi = if lo == 0 then add hi 1 else hi; lo = lo }

unfoldable pub mult : ℕ → ℕ → Bool → Double
mult a b signed_arith =
    let a_negative = signed_arith && negative a in
    let b_negative = signed_arith && negative b in
    let r =
      mult_loop 32 (if a_negative then negate a else a)
        (record { hi = 0; lo = if b_negative then negate b else b }) (record { hi = 0; lo = 0 }) in
    if a == 0 || b == 0
    then record { hi = 0; lo = 0 }
    else if differ a_negative b_negative
    then negate_double r
    else r
