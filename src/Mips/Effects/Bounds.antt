-- ===== src/Mips/Effects/Bounds.antt =====
-- The words that `OneInstruction` of machine/mipssim.cc computes are words.
use pku_os_lab.Common.{ℕ, ◌-◌, ◌/◌, ◌%◌, ◌^◌, ◌<◌, ◌≤◌, Bool-cases, inl, inr, arith, get_or}
use native.Mathlib.Nat.{div-le_self, mod-le}
use pku_os_lab.Mips.{
  decode, extra_of, Format, ifmt, jfmt, rfmt, Instruction, op_table, info, op_res,
}
use pku_os_lab.Mips.Word.{negative, differ, shift_right, magnitude, quotient, remainder}

abbrev pub IsWord : ℕ → Type 0
IsWord x = x < 2 ^ 32

pub magnitude-IsWord : (x : ℕ) → IsWord x → magnitude x ≤ 2 ^ 31
magnitude-IsWord x h = ground arith

pub shift_right-IsWord : (x s : ℕ) → IsWord x → IsWord (shift_right x s)
shift_right-IsWord x s h =
    ground (arith, div-le_self x (2 ^ s), div-le_self (2 ^ 32 - 1 - x) (2 ^ s))

pub quotient-IsWord : (x y : ℕ) → IsWord x → IsWord (quotient x y)
quotient-IsWord x y h =
    let small : magnitude x / magnitude y < 2 ^ 32 =
      omega (arith, div-le_self (magnitude x) (magnitude y), magnitude-IsWord x h) in
    elim (Bool-cases (differ (negative x) (negative y))) [
      | inl d ↦ rw d (omega arith)
      | inr s ↦ rw s small
    ]

pub remainder-IsWord : (x y : ℕ) → IsWord x → IsWord (remainder x y)
remainder-IsWord x y h = elim (Bool-cases (negative x)) [
  | inl d ↦ rw d (omega arith)
  | inr s ↦ rw s (omega (arith, h, mod-le x (magnitude y)))
]

-- What `Decode` gives names registers, and `extra` is a word.
pub record Operands (i : Instruction) : Type 0 where
  pub rs : i.rs < 32
  pub rt : i.rt < 32
  pub rd : i.rd < 32
  pub extra : IsWord i.extra

extra_of-IsWord : (form : Format) (raw : ℕ) → IsWord (extra_of form raw)
extra_of-IsWord ifmt raw = ground arith
extra_of-IsWord jfmt raw = omega arith
extra_of-IsWord rfmt raw = omega arith

pub decode-Operands : (raw : ℕ) → Operands (decode raw)
unfolding decode
decode-Operands raw = record {
  rs = omega arith;
  rt = omega arith;
  rd = omega arith;
  extra = extra_of-IsWord (get_or op_table (raw / 2 ^ 26 % 2 ^ 6) (info op_res ifmt)).format raw;
}
