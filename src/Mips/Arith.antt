-- ===== src/Mips/Arith.antt =====
-- machine/mipssim.cc, `OneInstruction`: the instructions that compute in registers. A name is the
-- operation code's; the operands are taken from the registers and from `extra`.
pub mod Overflow
pub mod Leaves
use pku_os_lab.Common.{
  ℕ, ◌+◌, ◌-◌, ◌*◌, ◌/◌, ◌%◌, ◌^◌, Bool, true, false, not, ◌&&◌, ltb, ◌==◌, if◌then◌else◌, Run, ok,
  aborted, bit_and, bit_or,
}
use Prim.Native.Nat.{bit_xor}
use pku_os_lab.Common.Bits.{complement}
use pku_os_lab.Machine.{Machine, overflow}
use pku_os_lab.Mips.{Instruction}
use pku_os_lab.Mips.Word.{
  add, sub, negative, differ, less, shift_left, shift_right, quotient, remainder,
}
use pku_os_lab.Mips.Mult.{Double, mult}
use pku_os_lab.Mips.Registers.{
  reg, set_reg, Effect, raises, sets, proceeds, pc_after, hi_reg, lo_reg,
}

pub add_signed : Machine → Instruction → Effect
add_signed m i =
    let sum = add (reg m i.rs) (reg m i.rt) in
    if not (differ (negative (reg m i.rs)) (negative (reg m i.rt)))
      && differ (negative (reg m i.rs)) (negative sum)
    then raises overflow 0 m
    else sets m i.rd sum

unfoldable pub addi : Machine → Instruction → Effect
addi m i =
    let sum = add (reg m i.rs) i.extra in
    if not (differ (negative (reg m i.rs)) (negative i.extra))
      && differ (negative i.extra) (negative sum)
    then raises overflow 0 m
    else sets m i.rt sum

pub addiu : Machine → Instruction → Effect
addiu m i = sets m i.rt (add (reg m i.rs) i.extra)

pub addu : Machine → Instruction → Effect
addu m i = sets m i.rd (add (reg m i.rs) (reg m i.rt))

pub and_regs : Machine → Instruction → Effect
and_regs m i = sets m i.rd (bit_and (reg m i.rs) (reg m i.rt))

pub andi : Machine → Instruction → Effect
andi m i = sets m i.rt (bit_and (reg m i.rs) (i.extra % 2 ^ 16))

-- `registers[LoReg] = lo; registers[HiReg] = hi;`
abbrev pub sets_double : Machine → ℕ → ℕ → Effect
sets_double m hi lo = proceeds (set_reg (set_reg m lo_reg lo) hi_reg hi) 0 0 (pc_after m)

-- The division of the least `int` by -1 has no value in C; the division instruction of the host traps.
pub div : Machine → Instruction → Run Effect
div m i =
    let x = reg m i.rs in
    let y = reg m i.rt in
    if y == 0
    then ok (sets_double m 0 0)
    else if x == 2 ^ 31 && y == 2 ^ 32 - 1
    then aborted
    else ok (sets_double m (remainder x y) (quotient x y))

pub divu : Machine → Instruction → Effect
divu m i =
    let rs = reg m i.rs in
    let rt = reg m i.rt in if rt == 0 then sets_double m 0 0 else sets_double m (rs % rt) (rs / rt)

pub lui : Machine → Instruction → Effect
lui m i = sets m i.rt (shift_left i.extra 16)

pub mfhi : Machine → Instruction → Effect
mfhi m i = sets m i.rd (reg m hi_reg)

pub mflo : Machine → Instruction → Effect
mflo m i = sets m i.rd (reg m lo_reg)

pub mthi : Machine → Instruction → Effect
mthi m i = sets m hi_reg (reg m i.rs)

pub mtlo : Machine → Instruction → Effect
mtlo m i = sets m lo_reg (reg m i.rs)

-- `OP_MULT` and `OP_MULTU`; `Mult` writes the high word before the low one.
pub multiply : Bool → Machine → Instruction → Effect
multiply signed_arith m i =
    let r = mult (reg m i.rs) (reg m i.rt) signed_arith in
    proceeds (set_reg (set_reg m hi_reg r.hi) lo_reg r.lo) 0 0 (pc_after m)

pub nor : Machine → Instruction → Effect
nor m i = sets m i.rd (complement 32 (bit_or (reg m i.rs) (reg m i.rt)))

-- The source takes `rs` twice.
pub or_regs : Machine → Instruction → Effect
or_regs m i = sets m i.rd (bit_or (reg m i.rs) (reg m i.rs))

pub ori : Machine → Instruction → Effect
ori m i = sets m i.rt (bit_or (reg m i.rs) (i.extra % 2 ^ 16))

pub sll : Machine → Instruction → Effect
sll m i = sets m i.rd (shift_left (reg m i.rt) i.extra)

pub sllv : Machine → Instruction → Effect
sllv m i = sets m i.rd (shift_left (reg m i.rt) (reg m i.rs % 2 ^ 5))

pub slt : Machine → Instruction → Effect
slt m i = sets m i.rd (if less (reg m i.rs) (reg m i.rt) then 1 else 0)

pub slti : Machine → Instruction → Effect
slti m i = sets m i.rt (if less (reg m i.rs) i.extra then 1 else 0)

pub sltiu : Machine → Instruction → Effect
sltiu m i = sets m i.rt (if ltb (reg m i.rs) i.extra then 1 else 0)

pub sltu : Machine → Instruction → Effect
sltu m i = sets m i.rd (if ltb (reg m i.rs) (reg m i.rt) then 1 else 0)

pub sra : Machine → Instruction → Effect
sra m i = sets m i.rd (shift_right (reg m i.rt) i.extra)

pub srav : Machine → Instruction → Effect
srav m i = sets m i.rd (shift_right (reg m i.rt) (reg m i.rs % 2 ^ 5))

-- `tmp` is an `int`, so that its `>>=` copies the sign.
pub srl : Machine → Instruction → Effect
srl m i = sets m i.rd (shift_right (reg m i.rt) i.extra)

pub srlv : Machine → Instruction → Effect
srlv m i = sets m i.rd (shift_right (reg m i.rt) (reg m i.rs % 2 ^ 5))

pub sub_signed : Machine → Instruction → Effect
sub_signed m i =
    let diff = sub (reg m i.rs) (reg m i.rt) in
    if differ (negative (reg m i.rs)) (negative (reg m i.rt))
      && differ (negative (reg m i.rs)) (negative diff)
    then raises overflow 0 m
    else sets m i.rd diff

pub subu : Machine → Instruction → Effect
subu m i = sets m i.rd (sub (reg m i.rs) (reg m i.rt))

pub xor_regs : Machine → Instruction → Effect
xor_regs m i = sets m i.rd (bit_xor (reg m i.rs) (reg m i.rt))

pub xori : Machine → Instruction → Effect
xori m i = sets m i.rt (bit_xor (reg m i.rs) (i.extra % 2 ^ 16))
