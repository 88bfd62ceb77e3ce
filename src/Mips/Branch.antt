-- ===== src/Mips/Branch.antt =====
-- machine/mipssim.cc, `OneInstruction`: branches and jumps, which take effect after the next
-- instruction.
pub mod Leaves
use pku_os_lab.Common.{
  ℕ, ◌+◌, ◌*◌, ◌^◌, ◌%◌, Bool, not, ◌&&◌, ◌||◌, ◌==◌, if◌then◌else◌, bit_and, bit_or,
}
use pku_os_lab.Machine.{Machine, next_pc_reg}
use pku_os_lab.Mips.{Instruction}
use pku_os_lab.Mips.Word.{add, negative}
use pku_os_lab.Mips.Registers.{reg, set_reg, Effect, proceeds, pc_after, ret_addr_reg}

-- `registers[NextPCReg] + IndexToAddr(instr->extra)`
abbrev pub branch_target : Machine → Instruction → ℕ
branch_target m i = add (reg m next_pc_reg) (i.extra * 4 % 2 ^ 32)

-- `if (taken) pcAfter = registers[NextPCReg] + IndexToAddr(instr->extra);`
abbrev pub branches : Machine → Instruction → Bool → Effect
branches m i taken = proceeds m 0 0 (if taken then branch_target m i else pc_after m)

-- `registers[r] = registers[NextPCReg] + 4;`
abbrev pub link : Machine → ℕ → Machine
link m r = set_reg m r (add (reg m next_pc_reg) 4)

pub beq : Machine → Instruction → Effect
beq m i = branches m i (reg m i.rs == reg m i.rt)

pub bgez : Machine → Instruction → Effect
bgez m i = branches m i (not (negative (reg m i.rs)))

pub bgezal : Machine → Instruction → Effect
unfolding bgez
bgezal m i = bgez (link m ret_addr_reg) i

pub bgtz : Machine → Instruction → Effect
bgtz m i = branches m i (not (negative (reg m i.rs)) && not (reg m i.rs == 0))

pub blez : Machine → Instruction → Effect
blez m i = branches m i (negative (reg m i.rs) || reg m i.rs == 0)

pub bltz : Machine → Instruction → Effect
bltz m i = branches m i (negative (reg m i.rs))

pub bltzal : Machine → Instruction → Effect
unfolding bltz
bltzal m i = bltz (link m ret_addr_reg) i

pub bne : Machine → Instruction → Effect
bne m i = branches m i (not (reg m i.rs == reg m i.rt))

pub jump : Machine → Instruction → Effect
jump m i = proceeds m 0 0 (bit_or (bit_and (pc_after m) 0xf0000000) (i.extra * 4 % 2 ^ 32))

pub jal : Machine → Instruction → Effect
unfolding jump
jal m i = jump (link m ret_addr_reg) i

pub jr : Machine → Instruction → Effect
jr m i = proceeds m 0 0 (reg m i.rs)

pub jalr : Machine → Instruction → Effect
unfolding jr
jalr m i = jr (link m i.rd) i
