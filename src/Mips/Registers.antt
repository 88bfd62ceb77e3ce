-- ===== src/Mips/Registers.antt =====
-- machine/mipssim.cc, `DelayedLoad`, and machine/machine.cc, `RaiseException`, up to the call of
-- `ExceptionHandler`: the registers, and how an instruction ends.
use pku_os_lab.Common.{ℕ, get_or, set}
use pku_os_lab.Machine.{Machine, ExceptionType, next_pc_reg, pc_reg, prev_pc_reg}
use pku_os_lab.Mips.Word.{add}

-- `R31`, `HiReg`, `LoReg`, `LoadReg`, `LoadValueReg` and `BadVAddrReg`
abbrev pub ret_addr_reg : ℕ
ret_addr_reg = 31

abbrev pub hi_reg : ℕ
hi_reg = 32

abbrev pub lo_reg : ℕ
lo_reg = 33

abbrev pub load_reg : ℕ
load_reg = 37

abbrev pub load_value_reg : ℕ
load_value_reg = 38

abbrev pub bad_vaddr_reg : ℕ
bad_vaddr_reg = 39

-- `registers[i]`
abbrev pub reg : Machine → ℕ → ℕ
reg m i = get_or m.registers i 0

abbrev pub set_reg : Machine → ℕ → ℕ → Machine
set_reg m i v = record m { registers = set m.registers i v }

unfoldable pub delayed_load : Machine → ℕ → ℕ → Machine
delayed_load m next_reg next_value =
    let m₁ = set_reg m (reg m load_reg) (reg m load_value_reg) in
    let m₂ = set_reg m₁ load_reg next_reg in
    let m₃ = set_reg m₂ load_value_reg next_value in set_reg m₃ 0 0

-- The machine that the kernel's handler of the exception finds.
unfoldable pub raise_exception : Machine → ℕ → Machine
raise_exception m bad_vaddr = delayed_load (set_reg m bad_vaddr_reg bad_vaddr) 0 0

-- The end of `OneInstruction`: the program counters advance.
unfoldable pub advance : Machine → ℕ → Machine
advance m after =
    let m₂ = set_reg m prev_pc_reg (reg m pc_reg) in
    let m₃ = set_reg m₂ pc_reg (reg m₂ next_pc_reg) in set_reg m₃ next_pc_reg after

-- What the `switch` of `OneInstruction` leaves: `nextLoadReg`, `nextLoadValue` and `pcAfter` at its
-- end, or an exception with its address, after which `OneInstruction` returns.
pub data Effect : Type 0 where
  proceeds : Machine → ℕ → ℕ → ℕ → Effect
  raises : ExceptionType → ℕ → Machine → Effect

-- `registers[NextPCReg] + 4`, where `pcAfter` starts
abbrev pub pc_after : Machine → ℕ
pc_after m = add (reg m next_pc_reg) 4

-- An instruction that sets a register and does not branch.
abbrev pub sets : Machine → ℕ → ℕ → Effect
sets m i v = proceeds (set_reg m i v) 0 0 (pc_after m)
