-- ===== src/Mips/Effects.antt =====
-- What one instruction of machine/mipssim.cc leaves of the machine: the registers stay words, and the
-- program counters are not touched before the instruction is done.
pub mod Bounds
pub mod Access
use pku_os_lab.Common.{
  ℕ, zero, suc, ◌+◌, ◌-◌, ◌*◌, ◌/◌, ◌%◌, ◌^◌, ◌<◌, ◌≤◌, ◌≡◌, refl, ◌∙◌, sym, ap, Bool, true, false,
  not, ◌&&◌, leb, ltb, ◌==◌, if◌then◌else◌, bit_and, bit_or, Bool-cases, inl, inr, arith, get_or,
  set, length, All, All-set, All-get_or, length-set, get_or-set_ne, Run, ok, aborted, ◌>>=◌, ◌>>◌,
  assert, List,
}
use pku_os_lab.Machine.{Machine, ExceptionType, num_total_regs, pc_reg, next_pc_reg}
use pku_os_lab.Machine.Translate.Outcome.{has_mapping}
use pku_os_lab.Mips.Effects.Bounds.{IsWord, Operands}
use pku_os_lab.Mips.Registers.{reg, set_reg, Effect, proceeds, raises, sets, pc_after, load_reg}

-- The machine between two instructions: 40 registers that are words, cells that are bytes, a delayed
-- load to a general register, and a TLB or a page table.
pub record IsCpu (m : Machine) : Type 0 where
  pub full : length m.registers ≡ num_total_regs
  pub words : All IsWord m.registers
  pub target : reg m load_reg < 32
  pub bytes : (p : ℕ) → m.main_memory p < 256
  pub mapped : has_mapping m.tlb m.page_table ≡ true

-- The registers of `m`, and bytes.
pub same-IsCpu :
    (m m' : Machine)
    → IsCpu m
    → m'.registers ≡ m.registers
    → ((p : ℕ) → m'.main_memory p < 256)
    → has_mapping m'.tlb m'.page_table ≡ true
    → IsCpu m'
same-IsCpu m m' c same bytes mapped = record {
  full = rw same c.full;
  words = rw same c.words;
  target = rw same c.target;
  bytes = bytes;
  mapped = mapped;
}

pub reg-IsWord : (m : Machine) (r : ℕ) → IsCpu m → IsWord (reg m r)
reg-IsWord m r c = All-get_or IsWord m.registers r 0 c.words (omega arith)

-- What the `switch` may leave of `m`.
pub data Leaves (m : Machine) : Effect → Type 0 where
  completes :
      (m' : Machine) (next_reg next_value after : ℕ)
      → IsCpu m'
      → next_reg < 32
      → IsWord next_value
      → IsWord after
      → reg m' pc_reg ≡ reg m pc_reg
      → reg m' next_pc_reg ≡ reg m next_pc_reg
      → Leaves m (proceeds m' next_reg next_value after)
  stops :
      (e : ExceptionType) (addr : ℕ) (m' : Machine)
      → IsCpu m'
      → IsWord addr
      → m'.registers ≡ m.registers
      → Leaves m (raises e addr m')

pub set_reg-IsCpu : (m : Machine) (r v : ℕ) → IsCpu m → r < 34 → IsWord v → IsCpu (set_reg m r v)
set_reg-IsCpu m r v c h w = record {
  full = length-set m.registers r v ∙ c.full;
  words = All-set IsWord m.registers r v c.words w;
  target =
      rw (get_or-set_ne m.registers r load_reg v 0 (λ e. absurd (omega (arith, e, h)))) c.target;
  bytes = c.bytes;
  mapped = c.mapped;
}

pub set_reg-other : (m : Machine) (r r' v : ℕ) → r < r' → reg (set_reg m r v) r' ≡ reg m r'
set_reg-other m r r' v h = get_or-set_ne m.registers r r' v 0 (λ e. absurd (omega (arith, e, h)))

module _ (m : Machine) (c : IsCpu m) where
  pub completes_here : (after : ℕ) → IsWord after → Leaves m (proceeds m 0 0 after)
  completes_here after w = completes m 0 0 after c (omega arith) (omega arith) w refl refl

  -- A register is set, and the next program counter is `after`.
  pub jumps-Leaves :
      (r v after : ℕ)
      → r < 34
      → IsWord v
      → IsWord after
      → Leaves m (proceeds (set_reg m r v) 0 0 after)
  jumps-Leaves r v after h w wa =
      completes (set_reg m r v) 0 0 after (set_reg-IsCpu m r v c h w) (omega arith) (omega arith) wa
        (set_reg-other m r pc_reg v (omega arith)) (set_reg-other m r next_pc_reg v (omega arith))

  pub sets-Leaves : (r v : ℕ) → r < 34 → IsWord v → Leaves m (sets m r v)
  sets-Leaves r v h w = jumps-Leaves r v (pc_after m) h w (omega arith)

  pub double-Leaves :
      (r v r' v' : ℕ)
      → r < 34
      → r' < 34
      → IsWord v
      → IsWord v'
      → Leaves m (proceeds (set_reg (set_reg m r v) r' v') 0 0 (pc_after m))
  double-Leaves r v r' v' h h' w w' =
      let first_set = set_reg m r v in
      completes (set_reg first_set r' v') 0 0 (pc_after m)
        (set_reg-IsCpu first_set r' v' (set_reg-IsCpu m r v c h w) h' w') (omega arith)
        (omega arith) (omega arith)
        (set_reg-other first_set r' pc_reg v' (omega arith)
          ∙ set_reg-other m r pc_reg v (omega arith))
        (set_reg-other first_set r' next_pc_reg v' (omega arith)
          ∙ set_reg-other m r next_pc_reg v (omega arith))

-- What an instruction leaves that, by `may`, may stop the simulator.
pub data MayLeave (m : Machine) (may : Bool) : Run Effect → Type 0 where
  leaves : (effect : Effect) → Leaves m effect → MayLeave m may (ok effect)
  halts : may ≡ true → MayLeave m may aborted
