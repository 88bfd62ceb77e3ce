-- ===== src/Mips/Step/Valid.antt =====
-- `OneInstruction` of machine/mipssim.cc keeps the registers words and register 0 zero, and its
-- exceptions are precise.
use pku_os_lab.Common.{
  ℕ, ◌<◌, ◌≡◌, refl, ◌∙◌, ap, true, ◌==◌, if◌then◌else◌, arith, get_or, Run, ok, aborted, ◌>>=◌,
}
use pku_os_lab.Machine.{Machine, ExceptionType, pc_reg, next_pc_reg, prev_pc_reg}
use pku_os_lab.Machine.Translate.{Value, value, read_mem}
use pku_os_lab.Mips.{decode}
use pku_os_lab.Mips.Registers.{
  reg, Effect, delayed_load, raise_exception, advance, load_reg, load_value_reg,
}
use pku_os_lab.Mips.Effects.{
  IsCpu, reg-IsWord, Leaves, completes, stops, MayLeave, leaves, halts, same-IsCpu,
}
use pku_os_lab.Machine.Translate.Outcome.{a_word}
use pku_os_lab.Mips.Effects.Bounds.{IsWord, decode-Operands}
use pku_os_lab.Mips.Effects.Access.{Reads, unread, gives, read_mem-Reads}
use pku_os_lab.Mips.Step.{Outcome, done, trapped, finish, run_fetched, one_instruction}
use pku_os_lab.Mips.Step.Switch.{may_stop, execute-MayLeave}
use pku_os_lab.Mips.Step.Registers.{
  reg-delayed_load, delayed_load-IsCpu, raise_exception-IsCpu, reg-raise_exception, reg-raised_load,
  advance-IsCpu, reg-advance,
}

-- What one call may do to `m`.
pub data Stepped (m : Machine) : Run Outcome → Type 0 where
  advances :
      (m' : Machine)
      → IsCpu m'
      → reg m' 0 ≡ 0
      → reg m' prev_pc_reg ≡ reg m pc_reg
      → reg m' pc_reg ≡ reg m next_pc_reg
      → Stepped m (ok (done m'))
  restarts :
      (e : ExceptionType) (m' : Machine)
      → IsCpu m'
      → ((r : ℕ)
          → r < 37
          → reg m' r
            ≡ (if 0 == r then 0 else if reg m load_reg == r then reg m load_value_reg else reg m r))
      → reg m' load_reg ≡ 0
      → Stepped m (ok (trapped e m'))
  simulator_stops :
      (raw : ℕ) (m' : Machine)
      → read_mem m (reg m pc_reg) 4 ≡ ok (value raw m')
      → may_stop (decode raw).op_code ≡ true
      → Stepped m aborted

traps-Stepped :
    (m m' : Machine) (e : ExceptionType) (addr : ℕ)
    → IsCpu m'
    → IsWord addr
    → m'.registers ≡ m.registers
    → Stepped m (ok (trapped e (raise_exception m' addr)))
traps-Stepped m m' e addr c w same =
    restarts e (raise_exception m' addr) (raise_exception-IsCpu m' addr c w)
      (λ r lt.
        reg-raise_exception m' addr r c w lt
        ∙ ap
            (λ rs.
              if 0 == r
              then 0
              else if get_or rs load_reg 0 == r
              then get_or rs load_value_reg 0
              else get_or rs r 0)
            same)
      (reg-raised_load m' addr c w)

finish-Stepped :
    (m m₀ : Machine) (effect : Effect)
    → m₀.registers ≡ m.registers
    → Leaves m₀ effect
    → Stepped m (ok (finish effect))
unfolding finish
finish-Stepped m m₀ _ same₀ (stops e addr m' c w same) =
    traps-Stepped m m' e addr c w (same ∙ same₀)
finish-Stepped m m₀ _ same₀ (completes m' next_reg next_value after c lt w wa pc next) =
    let m₁ = delayed_load m' next_reg next_value in
    let c₁ = delayed_load-IsCpu m' next_reg next_value c lt w in
    let kept : (r : ℕ) → 33 < r → r < 37 → reg m₁ r ≡ reg m' r = λ r above below.
      reg-delayed_load m' next_reg next_value r c ∙ ground (arith, above, below, c.target) in
    advances (advance m₁ after) (advance-IsCpu m₁ after c₁ wa)
      (reg-advance m₁ after 0 c₁ ∙ reg-delayed_load m' next_reg next_value 0 c)
      (reg-advance m₁ after prev_pc_reg c₁
        ∙ kept pc_reg (omega arith) (omega arith)
        ∙ pc
        ∙ ap (λ rs. get_or rs pc_reg 0) same₀)
      (reg-advance m₁ after pc_reg c₁
        ∙ kept next_pc_reg (omega arith) (omega arith)
        ∙ next
        ∙ ap (λ rs. get_or rs next_pc_reg 0) same₀)

execution-Stepped :
    (m m' : Machine) (raw : ℕ) (r : Run Effect)
    → m'.registers ≡ m.registers
    → read_mem m (reg m pc_reg) 4 ≡ ok (value raw m')
    → MayLeave m' (may_stop (decode raw).op_code) r
    → Stepped m (do effect ← r; ok (finish effect))
execution-Stepped m m' raw _ same read (halts why) = simulator_stops raw m' read why
execution-Stepped m m' raw _ same read (leaves effect l) = finish-Stepped m m' effect same l

fetched-Stepped :
    (m : Machine) (r : Run Value)
    → IsCpu m
    → read_mem m (reg m pc_reg) 4 ≡ r
    → Reads m r
    → Stepped m (do x ← r; run_fetched m x)
unfolding run_fetched
fetched-Stepped m _ c read (unread e) =
    traps-Stepped m m e (reg m pc_reg) c (reg-IsWord m pc_reg c) refl
fetched-Stepped m _ c read (gives raw m' w same mem map) =
    let c' : IsCpu m' = same-IsCpu m m' c same (rw mem c.bytes) map in
    execution-Stepped m m' raw _ same read
      (execute-MayLeave (decode raw).op_code m' c' (decode raw) (decode-Operands raw))

-- On a machine of 40 registers that are words, with a memory of bytes, a delayed load to a general
-- register, and a TLB or a page table, `OneInstruction` ends in one of two ways, and the machine is then
-- such a machine again; the simulator itself can stop only in `OP_DIV`, `OP_LWL`, `OP_LWR`, `OP_SWL` and
-- `OP_SWR` and for codes that are not instructions. Either the instruction is done: register 0 is 0, the
-- previous program counter is the old one and the program counter the old next one. Or an exception is
-- raised: the pending load has been made and no other load is pending, register 0 is 0, and every other
-- register up to the previous program counter is as before, so that the instruction can start again.
pub one_instruction-Stepped : (m : Machine) → IsCpu m → Stepped m (one_instruction m)
unfolding one_instruction
one_instruction-Stepped m c =
    fetched-Stepped m _ c refl (read_mem-Reads m c.bytes c.mapped (reg m pc_reg) 4 a_word)
