-- ===== src/Interrupt/Tick.antt =====
-- `OneTick` of machine/interrupt.cc.
use pku_os_lab.Common.{ℕ, ◌+◌, ◌<◌, ◌≡◌, true, List, if◌then◌else◌, Run, ok, All}
use pku_os_lab.Threads.Lists.Chain.{Represents}
use pku_os_lab.Threads.Lists.Sequence.{Increasing}
use pku_os_lab.Interrupt.{Interrupts, is_system, user_tick, system_tick, yields_now}

-- The time after a tick.
abbrev pub next_time : Interrupts → ℕ
next_time i = i.total_ticks + (if is_system i.status then system_tick else user_tick)

-- What a tick does before it lets other threads run: `on` is the state with interrupts on again.
pub record Ticked (yield_thread : Interrupts → Run Interrupts)
    (call : ℕ → ℕ → Interrupts → Run Interrupts) (i : Interrupts) (r : Run Interrupts)
    : Type 0 where
  pub on : Interrupts
  pub ys : List (ℕ × ℕ)
  pub enabled : on.level ≡ true
  pub time : on.total_ticks ≡ next_time i
  pub represents : Represents on.pending ys
  pub increasing : Increasing ys
  pub none_due : All (λ (y : ℕ × ℕ). on.total_ticks < y.1) ys
  pub result : r ≡ (if on.yields then yields_now call yield_thread i.status on else ok on)
