-- ===== src/Mips/Arith/Leaves.antt =====
-- The instructions of machine/mipssim.cc that compute in registers leave words.
use pku_os_lab.Common.{
  ℕ, ◌-◌, ◌<◌, ◌^◌, Bool, true, false, ◌&&◌, ◌==◌, if◌then◌else◌, Bool-cases, inl, inr, arith, refl,
}
use native.Mathlib.Nat.{div-le_self, mod-le}
use pku_os_lab.Common.Bits.{and-le, or-lt, xor-lt}
use pku_os_lab.Machine.{Machine, overflow}
use pku_os_lab.Mips.{Instruction}
use pku_os_lab.Mips.Mult.Product.{mult-Product}
use pku_os_lab.Mips.Registers.{reg, raises, sets, hi_reg, lo_reg}
use pku_os_lab.Mips.Effects.{
  IsCpu, reg-IsWord, Leaves, stops, sets-Leaves, double-Leaves, MayLeave, leaves, halts,
}
use pku_os_lab.Mips.Effects.Bounds.{
  IsWord, Operands, shift_right-IsWord, quotient-IsWord, remainder-IsWord,
}
use pku_os_lab.Mips.Arith.{
  add_signed, addi, sub_signed, div, divu, mthi, mtlo, multiply, addiu, addu, and_regs, andi, lui,
  mfhi, mflo, nor, or_regs, ori, sll, sllv, slt, slti, sltiu, sltu, sra, srav, srl, srlv, subu,
  xor_regs, xori,
}

flag : (b : Bool) → IsWord (if b then 1 else 0)
flag true = omega arith
flag false = omega arith

module _ (m : Machine) (c : IsCpu m) (i : Instruction) (o : Operands i) where
  regs : (r : ℕ) → IsWord (reg m r)
  regs r = reg-IsWord m r c

  unless_overflow :
      (test : Bool) (r v : ℕ)
      → r < 32
      → IsWord v
      → Leaves m (if test then raises overflow 0 m else sets m r v)
  unless_overflow true r v h w = stops overflow 0 m c (omega arith) refl
  unless_overflow false r v h w = sets-Leaves m c r v (omega (arith, h)) w

  pub add_signed-Leaves : Leaves m (add_signed m i)
  unfolding add_signed
  add_signed-Leaves = unless_overflow _ i.rd _ o.rd (omega arith)

  pub addi-Leaves : Leaves m (addi m i)
  unfolding addi
  addi-Leaves = unless_overflow _ i.rt _ o.rt (omega arith)

  pub sub_signed-Leaves : Leaves m (sub_signed m i)
  unfolding sub_signed
  sub_signed-Leaves = unless_overflow _ i.rd _ o.rd (omega arith)

  pub mthi-Leaves : Leaves m (mthi m i)
  unfolding mthi
  mthi-Leaves = sets-Leaves m c hi_reg _ (omega arith) (regs i.rs)

  pub mtlo-Leaves : Leaves m (mtlo m i)
  unfolding mtlo
  mtlo-Leaves = sets-Leaves m c lo_reg _ (omega arith) (regs i.rs)

  pub div-MayLeave : MayLeave m true (div m i)
  unfolding div
  div-MayLeave = elim (Bool-cases (reg m i.rt == 0)) [
    | inl none_given ↦ rw none_given (
        leaves _ (
          double-Leaves m c lo_reg 0 hi_reg 0 (omega arith) (omega arith) (omega arith)
            (omega arith)))
    | inr given ↦ elim (Bool-cases (reg m i.rs == 2 ^ 31 && reg m i.rt == 2 ^ 32 - 1)) [
      | inl out ↦ rw (given, out) (halts refl)
      | inr fits ↦
          rw (given, fits)
            (leaves _ (
              double-Leaves m c lo_reg _ hi_reg _ (omega arith) (omega arith)
                (quotient-IsWord _ (reg m i.rt) (regs i.rs))
                (remainder-IsWord _ (reg m i.rt) (regs i.rs))))
    ]
  ]

  pub divu-Leaves : Leaves m (divu m i)
  unfolding divu
  divu-Leaves = elim (Bool-cases (reg m i.rt == 0)) [
    | inl none_given ↦ rw none_given (
        double-Leaves m c lo_reg 0 hi_reg 0 (omega arith) (omega arith) (omega arith) (omega arith))
    | inr given ↦ rw given (
        double-Leaves m c lo_reg _ hi_reg _ (omega arith) (omega arith)
          (omega (arith, regs i.rs, div-le_self (reg m i.rs) (reg m i.rt)))
          (omega (arith, regs i.rs, mod-le (reg m i.rs) (reg m i.rt))))
  ]

  pub multiply-Leaves : (signed_arith : Bool) → Leaves m (multiply signed_arith m i)
  unfolding multiply
  multiply-Leaves s =
      let w = (mult-Product (reg m i.rs) (reg m i.rt) s (regs i.rs) (regs i.rt)).1 in
      double-Leaves m c hi_reg _ lo_reg _ (omega arith) (omega arith) w.high w.low

  pub addiu-Leaves : Leaves m (addiu m i)
  unfolding addiu
  addiu-Leaves = sets-Leaves m c i.rt _ (omega (arith, o.rt)) (omega arith)

  pub addu-Leaves : Leaves m (addu m i)
  unfolding addu
  addu-Leaves = sets-Leaves m c i.rd _ (omega (arith, o.rd)) (omega arith)

  pub and_regs-Leaves : Leaves m (and_regs m i)
  unfolding and_regs
  and_regs-Leaves = sets-Leaves m c i.rd _ (omega (arith, o.rd)) (and-le 32 _ _ (regs i.rs))

  pub andi-Leaves : Leaves m (andi m i)
  unfolding andi
  andi-Leaves = sets-Leaves m c i.rt _ (omega (arith, o.rt)) (and-le 32 _ _ (regs i.rs))

  pub lui-Leaves : Leaves m (lui m i)
  unfolding lui
  lui-Leaves = sets-Leaves m c i.rt _ (omega (arith, o.rt)) (omega arith)

  pub mfhi-Leaves : Leaves m (mfhi m i)
  unfolding mfhi
  mfhi-Leaves = sets-Leaves m c i.rd _ (omega (arith, o.rd)) (regs hi_reg)

  pub mflo-Leaves : Leaves m (mflo m i)
  unfolding mflo
  mflo-Leaves = sets-Leaves m c i.rd _ (omega (arith, o.rd)) (regs lo_reg)

  pub nor-Leaves : Leaves m (nor m i)
  unfolding nor
  nor-Leaves = sets-Leaves m c i.rd _ (omega (arith, o.rd)) (omega arith)

  pub or_regs-Leaves : Leaves m (or_regs m i)
  unfolding or_regs
  or_regs-Leaves =
      sets-Leaves m c i.rd _ (omega (arith, o.rd)) (or-lt 32 _ _ (regs i.rs) (regs i.rs))

  pub ori-Leaves : Leaves m (ori m i)
  unfolding ori
  ori-Leaves = sets-Leaves m c i.rt _ (omega (arith, o.rt)) (or-lt 32 _ _ (regs i.rs) (omega arith))

  pub sll-Leaves : Leaves m (sll m i)
  unfolding sll
  sll-Leaves = sets-Leaves m c i.rd _ (omega (arith, o.rd)) (omega arith)

  pub sllv-Leaves : Leaves m (sllv m i)
  unfolding sllv
  sllv-Leaves = sets-Leaves m c i.rd _ (omega (arith, o.rd)) (omega arith)

  pub slt-Leaves : Leaves m (slt m i)
  unfolding slt
  slt-Leaves = sets-Leaves m c i.rd _ (omega (arith, o.rd)) (flag _)

  pub slti-Leaves : Leaves m (slti m i)
  unfolding slti
  slti-Leaves = sets-Leaves m c i.rt _ (omega (arith, o.rt)) (flag _)

  pub sltiu-Leaves : Leaves m (sltiu m i)
  unfolding sltiu
  sltiu-Leaves = sets-Leaves m c i.rt _ (omega (arith, o.rt)) (flag _)

  pub sltu-Leaves : Leaves m (sltu m i)
  unfolding sltu
  sltu-Leaves = sets-Leaves m c i.rd _ (omega (arith, o.rd)) (flag _)

  pub sra-Leaves : Leaves m (sra m i)
  unfolding sra
  sra-Leaves = sets-Leaves m c i.rd _ (omega (arith, o.rd)) (shift_right-IsWord _ _ (regs i.rt))

  pub srav-Leaves : Leaves m (srav m i)
  unfolding srav
  srav-Leaves = sets-Leaves m c i.rd _ (omega (arith, o.rd)) (shift_right-IsWord _ _ (regs i.rt))

  pub srl-Leaves : Leaves m (srl m i)
  unfolding srl
  srl-Leaves = sets-Leaves m c i.rd _ (omega (arith, o.rd)) (shift_right-IsWord _ _ (regs i.rt))

  pub srlv-Leaves : Leaves m (srlv m i)
  unfolding srlv
  srlv-Leaves = sets-Leaves m c i.rd _ (omega (arith, o.rd)) (shift_right-IsWord _ _ (regs i.rt))

  pub subu-Leaves : Leaves m (subu m i)
  unfolding subu
  subu-Leaves = sets-Leaves m c i.rd _ (omega (arith, o.rd)) (omega arith)

  pub xor_regs-Leaves : Leaves m (xor_regs m i)
  unfolding xor_regs
  xor_regs-Leaves =
      sets-Leaves m c i.rd _ (omega (arith, o.rd)) (xor-lt 32 _ _ (regs i.rs) (regs i.rt))

  pub xori-Leaves : Leaves m (xori m i)
  unfolding xori
  xori-Leaves =
      sets-Leaves m c i.rt _ (omega (arith, o.rt)) (xor-lt 32 _ _ (regs i.rs) (omega arith))
