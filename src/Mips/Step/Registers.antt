-- ===== src/Mips/Step/Registers.antt =====
-- `DelayedLoad` of machine/mipssim.cc and `RaiseException` of machine/machine.cc, register by register.
use pku_os_lab.Common.{
  ℕ, ◌<◌, ◌≡◌, refl, ◌∙◌, false, ◌==◌, if◌then◌else◌, arith, length, length-set, get_or-set_self,
  get_or-set_ne, All-set,
}
use pku_os_lab.Machine.{Machine, num_total_regs, pc_reg, next_pc_reg, prev_pc_reg}
use pku_os_lab.Mips.Registers.{
  reg, set_reg, advance, delayed_load, raise_exception, load_reg, load_value_reg, bad_vaddr_reg,
}
use pku_os_lab.Mips.Effects.{IsCpu, reg-IsWord}
use pku_os_lab.Mips.Effects.Bounds.{IsWord}

pub reg-set_reg :
    (m : Machine) (r r' v : ℕ)
    → length m.registers ≡ num_total_regs
    → r < num_total_regs
    → reg (set_reg m r v) r' ≡ (if r == r' then v else reg m r')
reg-set_reg m r r' v full lt =
    ground (arith, get_or-set_self m.registers r v 0, get_or-set_ne m.registers r r' v 0, full, lt)

-- The registers after `DelayedLoad`, which ends with register 0.
pub reg-delayed_load :
    (m : Machine) (next_reg next_value r : ℕ)
    → IsCpu m
    → reg (delayed_load m next_reg next_value) r ≡ (
        if 0 == r
        then 0
        else if load_value_reg == r
        then next_value
        else if load_reg == r
        then next_reg
        else if reg m load_reg == r
        then reg m load_value_reg
        else reg m r)
unfolding delayed_load
reg-delayed_load m next_reg next_value r c =
    let m₁ = set_reg m (reg m load_reg) (reg m load_value_reg) in
    let m₂ = set_reg m₁ load_reg next_reg in
    let m₃ = set_reg m₂ load_value_reg next_value in
    let full₁ : length m₁.registers ≡ num_total_regs = length-set _ _ _ ∙ c.full in
    let full₂ : length m₂.registers ≡ num_total_regs = length-set _ _ _ ∙ full₁ in
    let full₃ : length m₃.registers ≡ num_total_regs = length-set _ _ _ ∙ full₂ in
    rw
      (
        reg-set_reg m₃ 0 r 0 full₃ (omega arith),
        reg-set_reg m₂ load_value_reg r next_value full₂ (omega arith),
        reg-set_reg m₁ load_reg r next_reg full₁ (omega arith),
        reg-set_reg m (reg m load_reg) r (reg m load_value_reg) c.full (omega (arith, c.target)),
      )
      refl

pub delayed_load-IsCpu :
    (m : Machine) (next_reg next_value : ℕ)
    → IsCpu m
    → next_reg < 32
    → IsWord next_value
    → IsCpu (delayed_load m next_reg next_value)
unfolding delayed_load
delayed_load-IsCpu m next_reg next_value c lt w = record {
  full = length-set _ _ _ ∙ length-set _ _ _ ∙ length-set _ _ _ ∙ length-set _ _ _ ∙ c.full;
  words =
      All-set IsWord _ 0 0
        (All-set IsWord _ load_value_reg next_value
          (All-set IsWord _ load_reg next_reg
            (All-set IsWord m.registers (reg m load_reg) (reg m load_value_reg) c.words
              (reg-IsWord m load_value_reg c))
            (omega (arith, lt)))
          w)
        (omega arith);
  target = rw (reg-delayed_load m next_reg next_value load_reg c) lt;
  bytes = c.bytes;
  mapped = c.mapped;
}

-- A register from 34 on, other than that of the delayed load.
set_high-IsCpu :
    (m : Machine) (r v : ℕ)
    → IsCpu m
    → r < num_total_regs
    → (r == load_reg) ≡ false
    → IsWord v
    → IsCpu (set_reg m r v)
set_high-IsCpu m r v c lt other w = record {
  full = length-set _ _ _ ∙ c.full;
  words = All-set IsWord m.registers r v c.words w;
  target = rw (reg-set_reg m r load_reg v c.full lt, other) c.target;
  bytes = c.bytes;
  mapped = c.mapped;
}

pub raise_exception-IsCpu :
    (m : Machine) (addr : ℕ) → IsCpu m → IsWord addr → IsCpu (raise_exception m addr)
unfolding raise_exception
raise_exception-IsCpu m addr c w =
    delayed_load-IsCpu _ 0 0 (set_high-IsCpu m bad_vaddr_reg addr c (omega arith) refl w)
      (omega arith) (omega arith)

-- The registers that the kernel's handler finds.
pub reg-raise_exception :
    (m : Machine) (addr r : ℕ)
    → IsCpu m
    → IsWord addr
    → r < 37
    → reg (raise_exception m addr) r
      ≡ (if 0 == r then 0 else if reg m load_reg == r then reg m load_value_reg else reg m r)
unfolding raise_exception
reg-raise_exception m addr r c w lt =
    let m₁ = set_reg m bad_vaddr_reg addr in
    let c₁ = set_high-IsCpu m bad_vaddr_reg addr c (omega arith) refl w in
    reg-delayed_load m₁ 0 0 r c₁
    ∙ ground (
      arith,
      reg-set_reg m bad_vaddr_reg load_reg addr c.full (omega arith),
      reg-set_reg m bad_vaddr_reg load_value_reg addr c.full (omega arith),
      reg-set_reg m bad_vaddr_reg r addr c.full (omega arith),
      lt,
    )

pub reg-raised_load :
    (m : Machine) (addr : ℕ) → IsCpu m → IsWord addr → reg (raise_exception m addr) load_reg ≡ 0
unfolding raise_exception
reg-raised_load m addr c w =
    reg-delayed_load _ 0 0 load_reg (set_high-IsCpu m bad_vaddr_reg addr c (omega arith) refl w)

pub advance-IsCpu : (m : Machine) (after : ℕ) → IsCpu m → IsWord after → IsCpu (advance m after)
unfolding advance
advance-IsCpu m after c w =
    let m₂ = set_reg m prev_pc_reg (reg m pc_reg) in
    let c₂ = set_high-IsCpu m prev_pc_reg _ c (omega arith) refl (reg-IsWord m pc_reg c) in
    let c₃ = set_high-IsCpu m₂ pc_reg _ c₂ (omega arith) refl (reg-IsWord m₂ next_pc_reg c₂) in
    set_high-IsCpu _ next_pc_reg after c₃ (omega arith) refl w

pub reg-advance :
    (m : Machine) (after r : ℕ)
    → IsCpu m
    → reg (advance m after) r ≡ (
        if next_pc_reg == r
        then after
        else if pc_reg == r
        then reg m next_pc_reg
        else if prev_pc_reg == r
        then reg m pc_reg
        else reg m r)
unfolding advance
reg-advance m after r c =
    let m₂ = set_reg m prev_pc_reg (reg m pc_reg) in
    let m₃ = set_reg m₂ pc_reg (reg m₂ next_pc_reg) in
    let full₂ : length m₂.registers ≡ num_total_regs = length-set _ _ _ ∙ c.full in
    let full₃ : length m₃.registers ≡ num_total_regs = length-set _ _ _ ∙ full₂ in
    rw
      (
        reg-set_reg m₃ next_pc_reg r after full₃ (omega arith),
        reg-set_reg m₂ pc_reg r (reg m₂ next_pc_reg) full₂ (omega arith),
        reg-set_reg m prev_pc_reg next_pc_reg (reg m pc_reg) c.full (omega arith),
        reg-set_reg m prev_pc_reg r (reg m pc_reg) c.full (omega arith),
      )
      refl
