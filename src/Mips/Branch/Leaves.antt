-- ===== src/Mips/Branch/Leaves.antt =====
-- The branches and jumps of machine/mipssim.cc change no register but the one of the return address.
use pku_os_lab.Common.{ℕ, ◌<◌, Bool, true, false, if◌then◌else◌, arith}
use pku_os_lab.Common.Bits.{and-le, or-lt}
use pku_os_lab.Machine.{Machine}
use pku_os_lab.Mips.{Instruction}
use pku_os_lab.Mips.Registers.{pc_after, ret_addr_reg}
use pku_os_lab.Mips.Effects.{IsCpu, reg-IsWord, set_reg-IsCpu, Leaves, completes_here, jumps-Leaves}
use pku_os_lab.Mips.Effects.Bounds.{IsWord, Operands}
use pku_os_lab.Mips.Branch.{
  branch_target, link, jump, jal, jr, jalr, bgezal, bltzal, beq, bgez, bgtz, blez, bltz, bne,
}

taken-IsWord :
    (m : Machine) (i : Instruction) (taken : Bool)
    → IsWord (if taken then branch_target m i else pc_after m)
taken-IsWord m i true = omega arith
taken-IsWord m i false = omega arith

module _ (m : Machine) (c : IsCpu m) (i : Instruction) (o : Operands i) where
  link-IsCpu : (r : ℕ) → r < 32 → IsCpu (link m r)
  link-IsCpu r h = set_reg-IsCpu m r _ c (omega (arith, h)) (omega arith)

  pub beq-Leaves : Leaves m (beq m i)
  unfolding beq
  beq-Leaves = completes_here m c _ (taken-IsWord m i _)

  pub bgez-Leaves : Leaves m (bgez m i)
  unfolding bgez
  bgez-Leaves = completes_here m c _ (taken-IsWord m i _)

  pub bgtz-Leaves : Leaves m (bgtz m i)
  unfolding bgtz
  bgtz-Leaves = completes_here m c _ (taken-IsWord m i _)

  pub blez-Leaves : Leaves m (blez m i)
  unfolding blez
  blez-Leaves = completes_here m c _ (taken-IsWord m i _)

  pub bltz-Leaves : Leaves m (bltz m i)
  unfolding bltz
  bltz-Leaves = completes_here m c _ (taken-IsWord m i _)

  pub bne-Leaves : Leaves m (bne m i)
  unfolding bne
  bne-Leaves = completes_here m c _ (taken-IsWord m i _)

  pub bgezal-Leaves : Leaves m (bgezal m i)
  unfolding bgezal bgez
  bgezal-Leaves =
      jumps-Leaves m c ret_addr_reg _ _ (omega arith) (omega arith)
        (taken-IsWord (link m ret_addr_reg) i _)

  pub bltzal-Leaves : Leaves m (bltzal m i)
  unfolding bltzal bltz
  bltzal-Leaves =
      jumps-Leaves m c ret_addr_reg _ _ (omega arith) (omega arith)
        (taken-IsWord (link m ret_addr_reg) i _)

  pub jump-Leaves : Leaves m (jump m i)
  unfolding jump
  jump-Leaves = completes_here m c _ (or-lt 32 _ _ (and-le 32 _ _ (omega arith)) (omega arith))

  pub jal-Leaves : Leaves m (jal m i)
  unfolding jal jump
  jal-Leaves =
      jumps-Leaves m c ret_addr_reg _ _ (omega arith) (omega arith)
        (or-lt 32 _ _ (and-le 32 _ _ (omega arith)) (omega arith))

  pub jr-Leaves : Leaves m (jr m i)
  unfolding jr
  jr-Leaves = completes_here m c _ (reg-IsWord m i.rs c)

  pub jalr-Leaves : Leaves m (jalr m i)
  unfolding jalr jr
  jalr-Leaves =
      jumps-Leaves m c i.rd _ _ (omega (arith, o.rd)) (omega arith)
        (reg-IsWord (link m i.rd) i.rs (link-IsCpu i.rd o.rd))
