-- ===== src/Mips/Step.antt =====
-- machine/mipssim.cc, `OneInstruction`: fetch, decode, execute, and the advance of the program
-- counters.
mod Switch
mod Registers
pub mod Valid
use pku_os_lab.Common.{ℕ, ◌+◌, ◌*◌, Bool, true, false, Run, ok, aborted, ◌>>=◌}
use pku_os_lab.Machine.{
  Machine, ExceptionType, syscall, illegal_instr, pc_reg, next_pc_reg, prev_pc_reg,
}
use pku_os_lab.Machine.Translate.{Value, failed, value, read_mem}
use pku_os_lab.Mips.{
  OpCode, Instruction, decode, op_add, op_addi, op_addiu, op_addu, op_and, op_andi, op_beq, op_bgez,
  op_bgezal, op_bgtz, op_blez, op_bltz, op_bltzal, op_bne, op_div, op_divu, op_j, op_jal, op_jalr,
  op_jr, op_lb, op_lbu, op_lh, op_lhu, op_lui, op_lw, op_lwl, op_lwr, op_mfhi, op_mflo, op_mthi,
  op_mtlo, op_mult, op_multu, op_nor, op_or, op_ori, op_rfe, op_sb, op_sh, op_sll, op_sllv, op_slt,
  op_slti, op_sltiu, op_sltu, op_sra, op_srav, op_srl, op_srlv, op_sub, op_subu, op_sw, op_swl,
  op_swr, op_xor, op_xori, op_syscall, op_unimp, op_res, special, bcond,
}
use pku_os_lab.Mips.Arith.{
  add_signed, addi, addiu, addu, and_regs, andi, div, divu, lui, mfhi, mflo, mthi, mtlo, multiply,
  nor, or_regs, ori, sll, sllv, slt, slti, sltiu, sltu, sra, srav, srl, srlv, sub_signed, subu,
  xor_regs, xori,
}
use pku_os_lab.Mips.Branch.{beq, bgez, bgezal, bgtz, blez, bltz, bltzal, bne, jump, jal, jr, jalr}
use pku_os_lab.Mips.Transfer.{load_byte, load_half, lw, lwl, lwr, store_reg, swl, swr}
use pku_os_lab.Mips.Registers.{
  reg, set_reg, Effect, proceeds, raises, delayed_load, raise_exception, advance,
}

-- `switch (instr->opCode)`
unfoldable pub execute : OpCode → Machine → Instruction → Run Effect
execute op_add m i = ok (add_signed m i)
execute op_addi m i = ok (addi m i)
execute op_addiu m i = ok (addiu m i)
execute op_addu m i = ok (addu m i)
execute op_and m i = ok (and_regs m i)
execute op_andi m i = ok (andi m i)
execute op_beq m i = ok (beq m i)
execute op_bgezal m i = ok (bgezal m i)
execute op_bgez m i = ok (bgez m i)
execute op_bgtz m i = ok (bgtz m i)
execute op_blez m i = ok (blez m i)
execute op_bltzal m i = ok (bltzal m i)
execute op_bltz m i = ok (bltz m i)
execute op_bne m i = ok (bne m i)
execute op_div m i = div m i
execute op_divu m i = ok (divu m i)
execute op_jal m i = ok (jal m i)
execute op_j m i = ok (jump m i)
execute op_jalr m i = ok (jalr m i)
execute op_jr m i = ok (jr m i)
execute op_lb m i = load_byte true m i
execute op_lbu m i = load_byte false m i
execute op_lh m i = load_half true m i
execute op_lhu m i = load_half false m i
execute op_lui m i = ok (lui m i)
execute op_lw m i = lw m i
execute op_lwl m i = lwl m i
execute op_lwr m i = lwr m i
execute op_mfhi m i = ok (mfhi m i)
execute op_mflo m i = ok (mflo m i)
execute op_mthi m i = ok (mthi m i)
execute op_mtlo m i = ok (mtlo m i)
execute op_mult m i = ok (multiply true m i)
execute op_multu m i = ok (multiply false m i)
execute op_nor m i = ok (nor m i)
execute op_or m i = ok (or_regs m i)
execute op_ori m i = ok (ori m i)
execute op_sb m i = store_reg 1 m i
execute op_sh m i = store_reg 2 m i
execute op_sll m i = ok (sll m i)
execute op_sllv m i = ok (sllv m i)
execute op_slt m i = ok (slt m i)
execute op_slti m i = ok (slti m i)
execute op_sltiu m i = ok (sltiu m i)
execute op_sltu m i = ok (sltu m i)
execute op_sra m i = ok (sra m i)
execute op_srav m i = ok (srav m i)
execute op_srl m i = ok (srl m i)
execute op_srlv m i = ok (srlv m i)
execute op_sub m i = ok (sub_signed m i)
execute op_subu m i = ok (subu m i)
execute op_sw m i = store_reg 4 m i
execute op_swl m i = swl m i
execute op_swr m i = swr m i
execute op_syscall m i = ok (raises syscall 0 m)
execute op_xor m i = ok (xor_regs m i)
execute op_xori m i = ok (xori m i)
execute op_res m i = ok (raises illegal_instr 0 m)
execute op_unimp m i = ok (raises illegal_instr 0 m)
execute op_rfe m i = aborted
execute special m i = aborted
execute bcond m i = aborted

-- What one call of `OneInstruction` does: the instruction is done, or the kernel's handler is called
-- for the exception, on the machine that is given.
pub data Outcome : Type 0 where
  done : Machine → Outcome
  trapped : ExceptionType → Machine → Outcome

-- What follows the `switch`.
unfoldable pub finish : Effect → Outcome
finish (raises e addr m) = trapped e (raise_exception m addr)
finish (proceeds m next_load_reg next_load_value pc_after) =
    done (advance (delayed_load m next_load_reg next_load_value) pc_after)

-- The instruction `raw` was fetched.
unfoldable pub run_fetched : Machine → Value → Run Outcome
run_fetched m (failed e) = ok (trapped e (raise_exception m (reg m pc_reg)))
run_fetched m (value raw m') = do
  effect ← execute (decode raw).op_code m' (decode raw)
  ok (finish effect)

unfoldable pub one_instruction : Machine → Run Outcome
one_instruction m = do fetched ← read_mem m (reg m pc_reg) 4; run_fetched m fetched
