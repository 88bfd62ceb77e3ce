-- ===== src/Machine.antt =====
-- machine/machine.h, machine.cc and translate.h: the simulated machine that runs user programs.
-- `TranslateCount` and the other counters for debugging are left out.
pub mod Translate
pub mod Tlb
pub mod Cpu
mod Tests
use pku_os_lab.Common.{
  ℕ, zero, suc, ◌+◌, ◌*◌, Bool, true, false, List, Option, ltb, if◌then◌else◌, Run, ok, ◌>>=◌, ◌>>◌,
  assert, get_or, set,
}

-- `PageSize`, `NumPhysPages`, `MemorySize` and `TLBSize`
abbrev pub page_size : ℕ
page_size = 128

abbrev pub num_phys_pages : ℕ
num_phys_pages = 32

abbrev pub memory_size : ℕ
memory_size = num_phys_pages * page_size

abbrev pub tlb_size : ℕ
tlb_size = 4

-- `NumTotalRegs`, `StackReg`, `PCReg`, `NextPCReg`, `PrevPCReg`, `LoadReg`, `LoadValueReg` and
-- `BadVAddrReg`
abbrev pub num_total_regs : ℕ
num_total_regs = 40

abbrev pub stack_reg : ℕ
stack_reg = 29

abbrev pub pc_reg : ℕ
pc_reg = 34

abbrev pub next_pc_reg : ℕ
next_pc_reg = 35

abbrev pub prev_pc_reg : ℕ
prev_pc_reg = 36

-- The numbers of pages are 32-bit words, as the code that compares them takes them.
pub record TranslationEntry : Type 0 where
  pub virtual_page : ℕ
  pub physical_page : ℕ
  pub valid : Bool
  pub read_only : Bool
  pub use_bit : Bool
  pub dirty : Bool
  pub count : ℕ

pub data ExceptionType : Type 0 where
  no_exception syscall page_fault read_only_fault bus_error address_error overflow illegal_instr :
      ExceptionType

-- `tlb` and `pageTable` are pointers that may be NULL. A cell of `mainMemory` is a number below 256,
-- a register a number below 2 ^ 32.
pub record Machine : Type 0 where
  pub registers : List ℕ
  pub main_memory : ℕ → ℕ
  pub tlb : Option (List TranslationEntry)
  pub page_table : Option (List TranslationEntry)
  pub page_table_size : ℕ

-- What an array of entries gives out of its bounds.
abbrev pub no_entry : TranslationEntry
no_entry = record {
  virtual_page = 0;
  physical_page = 0;
  valid = false;
  read_only = false;
  use_bit = false;
  dirty = false;
  count = 0;
}

pub read_register : Machine → ℕ → Run ℕ
read_register m num = assert (ltb num num_total_regs) >> ok (get_or m.registers num 0)

pub write_register : Machine → ℕ → ℕ → Run Machine
write_register m num value =
    assert (ltb num num_total_regs) >> ok (record m { registers = set m.registers num value })
