-- ===== src/Mips/Step/Switch.antt =====
-- The `switch` of `OneInstruction` in machine/mipssim.cc leaves registers that are words.
use pku_os_lab.Common.{Bool, true, false, refl, arith}
use pku_os_lab.Machine.{Machine, syscall, illegal_instr}
use pku_os_lab.Mips.{
  OpCode, Instruction, op_add, op_addi, op_addiu, op_addu, op_and, op_andi, op_beq, op_bgezal,
  op_bgez, op_bgtz, op_blez, op_bltzal, op_bltz, op_bne, op_div, op_divu, op_jal, op_j, op_jalr,
  op_jr, op_lb, op_lbu, op_lh, op_lhu, op_lui, op_lw, op_lwl, op_lwr, op_mfhi, op_mflo, op_mthi,
  op_mtlo, op_mult, op_multu, op_nor, op_or, op_ori, op_sb, op_sh, op_sll, op_sllv, op_slt, op_slti,
  op_sltiu, op_sltu, op_sra, op_srav, op_srl, op_srlv, op_sub, op_subu, op_sw, op_swl, op_swr,
  op_syscall, op_xor, op_xori, op_res, op_unimp, op_rfe, special, bcond,
}
use pku_os_lab.Mips.Effects.{IsCpu, stops, MayLeave, leaves, halts}
use pku_os_lab.Machine.Translate.Outcome.{a_byte, a_half, a_word}
use pku_os_lab.Mips.Effects.Bounds.{Operands}
use pku_os_lab.Mips.Arith.Leaves.{
  add_signed-Leaves, addi-Leaves, addiu-Leaves, addu-Leaves, and_regs-Leaves, andi-Leaves,
  div-MayLeave, divu-Leaves, lui-Leaves, mfhi-Leaves, mflo-Leaves, mthi-Leaves, mtlo-Leaves,
  multiply-Leaves, nor-Leaves, or_regs-Leaves, ori-Leaves, sll-Leaves, sllv-Leaves, slt-Leaves,
  slti-Leaves, sltiu-Leaves, sltu-Leaves, sra-Leaves, srav-Leaves, srl-Leaves, srlv-Leaves,
  sub_signed-Leaves, subu-Leaves, xor_regs-Leaves, xori-Leaves,
}
use pku_os_lab.Mips.Branch.Leaves.{
  beq-Leaves, bgezal-Leaves, bgez-Leaves, bgtz-Leaves, blez-Leaves, bltzal-Leaves, bltz-Leaves,
  bne-Leaves, jal-Leaves, jump-Leaves, jalr-Leaves, jr-Leaves,
}
use pku_os_lab.Mips.Transfer.Leaves.{
  load_byte-MayLeave, load_half-MayLeave, lw-MayLeave, lwl-MayLeave, lwr-MayLeave,
  store_reg-MayLeave, swl-MayLeave, swr-MayLeave,
}
use pku_os_lab.Mips.Step.{execute}

-- The instructions in which the simulator itself may stop: at the division of the least `int` by -1, at
-- the `ASSERT` of the accesses to parts of words, and for a code that is not decoded.
pub may_stop : OpCode → Bool
may_stop op_div = true
may_stop op_lwl = true
may_stop op_lwr = true
may_stop op_swl = true
may_stop op_swr = true
may_stop op_rfe = true
may_stop special = true
may_stop bcond = true
may_stop op = false

pub execute-MayLeave :
    (op : OpCode) (m : Machine)
    → IsCpu m
    → (i : Instruction) → Operands i
    → MayLeave m (may_stop op) (execute op m i)
unfolding execute may_stop
execute-MayLeave op_add m c i o = leaves _ (add_signed-Leaves m c i o)
execute-MayLeave op_addi m c i o = leaves _ (addi-Leaves m c i o)
execute-MayLeave op_addiu m c i o = leaves _ (addiu-Leaves m c i o)
execute-MayLeave op_addu m c i o = leaves _ (addu-Leaves m c i o)
execute-MayLeave op_and m c i o = leaves _ (and_regs-Leaves m c i o)
execute-MayLeave op_andi m c i o = leaves _ (andi-Leaves m c i o)
execute-MayLeave op_beq m c i o = leaves _ (beq-Leaves m c i o)
execute-MayLeave op_bgezal m c i o = leaves _ (bgezal-Leaves m c i o)
execute-MayLeave op_bgez m c i o = leaves _ (bgez-Leaves m c i o)
execute-MayLeave op_bgtz m c i o = leaves _ (bgtz-Leaves m c i o)
execute-MayLeave op_blez m c i o = leaves _ (blez-Leaves m c i o)
execute-MayLeave op_bltzal m c i o = leaves _ (bltzal-Leaves m c i o)
execute-MayLeave op_bltz m c i o = leaves _ (bltz-Leaves m c i o)
execute-MayLeave op_bne m c i o = leaves _ (bne-Leaves m c i o)
execute-MayLeave op_div m c i o = div-MayLeave m c i o
execute-MayLeave op_divu m c i o = leaves _ (divu-Leaves m c i o)
execute-MayLeave op_jal m c i o = leaves _ (jal-Leaves m c i o)
execute-MayLeave op_j m c i o = leaves _ (jump-Leaves m c i o)
execute-MayLeave op_jalr m c i o = leaves _ (jalr-Leaves m c i o)
execute-MayLeave op_jr m c i o = leaves _ (jr-Leaves m c i o)
execute-MayLeave op_lb m c i o = load_byte-MayLeave m c i o false true
execute-MayLeave op_lbu m c i o = load_byte-MayLeave m c i o false false
execute-MayLeave op_lh m c i o = load_half-MayLeave m c i o false true
execute-MayLeave op_lhu m c i o = load_half-MayLeave m c i o false false
execute-MayLeave op_lui m c i o = leaves _ (lui-Leaves m c i o)
execute-MayLeave op_lw m c i o = lw-MayLeave m c i o false
execute-MayLeave op_lwl m c i o = lwl-MayLeave m c i o true refl
execute-MayLeave op_lwr m c i o = lwr-MayLeave m c i o true refl
execute-MayLeave op_mfhi m c i o = leaves _ (mfhi-Leaves m c i o)
execute-MayLeave op_mflo m c i o = leaves _ (mflo-Leaves m c i o)
execute-MayLeave op_mthi m c i o = leaves _ (mthi-Leaves m c i o)
execute-MayLeave op_mtlo m c i o = leaves _ (mtlo-Leaves m c i o)
execute-MayLeave op_mult m c i o = leaves _ (multiply-Leaves m c i o true)
execute-MayLeave op_multu m c i o = leaves _ (multiply-Leaves m c i o false)
execute-MayLeave op_nor m c i o = leaves _ (nor-Leaves m c i o)
execute-MayLeave op_or m c i o = leaves _ (or_regs-Leaves m c i o)
execute-MayLeave op_ori m c i o = leaves _ (ori-Leaves m c i o)
execute-MayLeave op_sb m c i o = store_reg-MayLeave m c i o false 1 a_byte
execute-MayLeave op_sh m c i o = store_reg-MayLeave m c i o false 2 a_half
execute-MayLeave op_sll m c i o = leaves _ (sll-Leaves m c i o)
execute-MayLeave op_sllv m c i o = leaves _ (sllv-Leaves m c i o)
execute-MayLeave op_slt m c i o = leaves _ (slt-Leaves m c i o)
execute-MayLeave op_slti m c i o = leaves _ (slti-Leaves m c i o)
execute-MayLeave op_sltiu m c i o = leaves _ (sltiu-Leaves m c i o)
execute-MayLeave op_sltu m c i o = leaves _ (sltu-Leaves m c i o)
execute-MayLeave op_sra m c i o = leaves _ (sra-Leaves m c i o)
execute-MayLeave op_srav m c i o = leaves _ (srav-Leaves m c i o)
execute-MayLeave op_srl m c i o = leaves _ (srl-Leaves m c i o)
execute-MayLeave op_srlv m c i o = leaves _ (srlv-Leaves m c i o)
execute-MayLeave op_sub m c i o = leaves _ (sub_signed-Leaves m c i o)
execute-MayLeave op_subu m c i o = leaves _ (subu-Leaves m c i o)
execute-MayLeave op_sw m c i o = store_reg-MayLeave m c i o false 4 a_word
execute-MayLeave op_swl m c i o = swl-MayLeave m c i o true refl
execute-MayLeave op_swr m c i o = swr-MayLeave m c i o true refl
execute-MayLeave op_syscall m c i o = leaves _ (stops syscall 0 m c (omega arith) refl)
execute-MayLeave op_xor m c i o = leaves _ (xor_regs-Leaves m c i o)
execute-MayLeave op_xori m c i o = leaves _ (xori-Leaves m c i o)
execute-MayLeave op_res m c i o = leaves _ (stops illegal_instr 0 m c (omega arith) refl)
execute-MayLeave op_unimp m c i o = leaves _ (stops illegal_instr 0 m c (omega arith) refl)
execute-MayLeave op_rfe m c i o = halts refl
execute-MayLeave special m c i o = halts refl
execute-MayLeave bcond m c i o = halts refl
