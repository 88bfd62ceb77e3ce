-- ===== src/Machine/Cpu.antt =====
-- The registers: `IncrementPCRegs` of userprog/exception.cc and `AddrSpace::InitRegisters` of
-- userprog/addrspace.cc.
use pku_os_lab.Common.{
  ℕ, zero, suc, ◌+◌, ◌-◌, ◌*◌, ◌%◌, ◌^◌, ◌<◌, ◌≡◌, refl, ltb, ◌==◌, if◌then◌else◌, Run, ok, ◌>>=◌,
  length, get_or, set, arith, lt→ltb, length-set, get_or-set_self, get_or-set_ne, ◌∙◌,
}
use pku_os_lab.Machine.{
  Machine, num_total_regs, pc_reg, next_pc_reg, prev_pc_reg, stack_reg, page_size, read_register,
  write_register,
}

-- A register that is set to `v`, as an `int`.
abbrev pub word32 : ℕ → ℕ
word32 v = v % 2 ^ 32

pub increment_pc_regs : Machine → Run Machine
increment_pc_regs m = do
  cur_pc ← read_register m pc_reg
  m₁ ← write_register m prev_pc_reg cur_pc
  m₂ ← write_register m₁ pc_reg (word32 (cur_pc + 4))
  write_register m₂ next_pc_reg (word32 (cur_pc + 8))

-- `for (i = 0; i < NumTotalRegs; i++) machine->WriteRegister(i, 0);`, with `n` rounds left
pub zero_registers : Machine → ℕ → ℕ → Run Machine
zero_registers m zero i = ok m
zero_registers m (suc n) i = do m' ← write_register m i 0; zero_registers m' n (i + 1)

-- The stack register gets `numPages * PageSize - 16`, in which `numPages` is unsigned.
pub init_registers : Machine → ℕ → Run Machine
init_registers m num_pages = do
  m₁ ← zero_registers m num_total_regs 0
  m₂ ← write_register m₁ pc_reg 0
  m₃ ← write_register m₂ next_pc_reg 4
  write_register m₃ stack_reg (word32 (num_pages * page_size + (2 ^ 32 - 16)))

-- The value of register `num`.
abbrev pub reg : Machine → ℕ → ℕ
reg m num = get_or m.registers num 0

-- `m'` is `m` with other values in its 40 registers.
pub record Sets (m m' : Machine) (values : ℕ → ℕ) : Type 0 where
  pub as_many : length m'.registers ≡ num_total_regs
  pub holds : (num : ℕ) → num < num_total_regs → reg m' num ≡ values num
  pub same_memory : m'.main_memory ≡ m.main_memory
  pub same_tlb : m'.tlb ≡ m.tlb
  pub same_table : m'.page_table ≡ m.page_table
  pub same_size : m'.page_table_size ≡ m.page_table_size

write_register-ok :
    (m : Machine) (num v : ℕ)
    → num < num_total_regs
    → write_register m num v ≡ ok (record m { registers = set m.registers num v })
unfolding write_register
write_register-ok m num v h = rw (lt→ltb num num_total_regs h) refl

-- A write, followed by what is known of the registers before it.
write_register-Sets :
    (m m' : Machine) (values : ℕ → ℕ) (num v : ℕ)
    → Sets m m' values
    → num < num_total_regs
    → (m'' : Machine) × (write_register m' num v ≡ ok m'')
      × Sets m m'' (λ j. if num == j then v else values j)
write_register-Sets m m' values num v s lt = (
  record m' { registers = set m'.registers num v },
  write_register-ok m' num v lt,
  record {
    as_many = length-set _ _ _ ∙ s.as_many;
    holds = λ j h. ground (
      arith,
      get_or-set_self m'.registers num v 0,
      get_or-set_ne m'.registers num j v 0,
      s.holds j h,
      s.as_many,
    );
    same_memory = s.same_memory;
    same_tlb = s.same_tlb;
    same_table = s.same_table;
    same_size = s.same_size;
  },
)

revalued :
    (m m' : Machine) (values values' : ℕ → ℕ)
    → Sets m m' values
    → ((j : ℕ) → j < num_total_regs → values j ≡ values' j)
    → Sets m m' values'
revalued m m' values values' s same = record {
  as_many = s.as_many;
  holds = λ j h. s.holds j h ∙ same j h;
  same_memory = s.same_memory;
  same_tlb = s.same_tlb;
  same_table = s.same_table;
  same_size = s.same_size;
}

zero_registers-Sets :
    (m m' : Machine) (n i : ℕ)
    → i + n ≡ num_total_regs
    → Sets m m' (λ j. if ltb j i then 0 else reg m j)
    → (m'' : Machine) × (zero_registers m' n i ≡ ok m'') × Sets m m'' (λ j. 0)
unfolding zero_registers
zero_registers-Sets m m' zero i full s =
    (m', refl, revalued m m' _ (λ j. 0) s (λ j h. ground arith))
zero_registers-Sets m m' (suc n) i full s =
    let (m₁, run, s₁) = write_register-Sets m m' _ i 0 s (omega (arith, full)) in
    let (m₂, run₂, s₂) =
      zero_registers-Sets m m₁ n (i + 1) (omega (arith, full))
        (revalued m m₁ _ (λ j. if ltb j (i + 1) then 0 else reg m j) s₁ (λ j h. ground arith)) in
    (m₂, rw (run, run₂) refl, s₂)

unchanged-Sets : (m : Machine) → length m.registers ≡ num_total_regs → Sets m m (reg m)
unchanged-Sets m full = record {
  as_many = full;
  holds = λ j h. refl;
  same_memory = refl;
  same_tlb = refl;
  same_table = refl;
  same_size = refl;
}

-- What the registers are for a program that starts in an address space of `num_pages` pages.
abbrev pub start_value : ℕ → ℕ → ℕ
start_value num_pages num =
    if stack_reg == num then num_pages * page_size - 16 else if next_pc_reg == num then 4 else 0

-- On a machine with its 40 registers, `InitRegisters` of an address space that has a page, and whose
-- size is an `int`, succeeds: the program counter is 0, the next one 4, the stack register 16 below the
-- end of the space, all other registers are 0, and the rest of the machine is as before.
pub init_registers-Sets :
    (m : Machine) (num_pages : ℕ)
    → length m.registers ≡ num_total_regs
    → 0 < num_pages
    → num_pages * page_size < 2 ^ 31
    → (m' : Machine) × (init_registers m num_pages ≡ ok m') × Sets m m' (start_value num_pages)
unfolding init_registers
init_registers-Sets m num_pages full some small =
    let (m₁, r₁, s₁) =
      zero_registers-Sets m m num_total_regs 0 refl
        (revalued m m (reg m) _ (unchanged-Sets m full) (λ j h. ground arith)) in
    let (m₂, r₂, s₂) = write_register-Sets m m₁ _ pc_reg 0 s₁ (omega arith) in
    let (m₃, r₃, s₃) = write_register-Sets m m₂ _ next_pc_reg 4 s₂ (omega arith) in
    let (m₄, r₄, s₄) =
      write_register-Sets m m₃ _ stack_reg (word32 (num_pages * page_size + (2 ^ 32 - 16))) s₃
        (omega arith) in
    (m₄, rw (r₁, r₂, r₃) r₄, revalued m m₄ _ (start_value num_pages) s₄ (λ j h. ground arith))

-- On a machine with its 40 registers, `IncrementPCRegs` succeeds and changes three of them: the
-- previous program counter becomes the current one, the current one grows by 4, and the next one is 8
-- above it, all modulo 2 ^ 32.
pub increment_pc_regs-Sets :
    (m : Machine)
    → length m.registers ≡ num_total_regs
    → (m' : Machine) × (increment_pc_regs m ≡ ok m')
      × Sets m m' (λ num.
        if next_pc_reg == num
        then (reg m pc_reg + 8) % 2 ^ 32
        else if pc_reg == num
        then (reg m pc_reg + 4) % 2 ^ 32
        else if prev_pc_reg == num
        then reg m pc_reg
        else reg m num)
unfolding increment_pc_regs read_register
increment_pc_regs-Sets m full =
    let (m₁, r₁, s₁) =
      write_register-Sets m m _ prev_pc_reg (reg m pc_reg) (unchanged-Sets m full) (omega arith) in
    let (m₂, r₂, s₂) =
      write_register-Sets m m₁ _ pc_reg (word32 (reg m pc_reg + 4)) s₁ (omega arith) in
    let (m₃, r₃, s₃) =
      write_register-Sets m m₂ _ next_pc_reg (word32 (reg m pc_reg + 8)) s₂ (omega arith) in
    (m₃, rw (r₁, r₂) r₃, s₃)
