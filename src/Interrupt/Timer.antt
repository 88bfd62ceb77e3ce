-- ===== src/Interrupt/Timer.antt =====
-- machine/timer.h and timer.cc, and the handlers of the timer in threads/system.cc, of which `RRInterruptHandler`
-- does the same as the other and prints. `Random` of machine/sysdep.cc is a parameter: the number it returns.
use pku_os_lab.Common.{
  ℕ, ◌+◌, ◌*◌, ◌%◌, ◌<◌, ◌≡◌, refl, Bool, true, not, List, if◌then◌else◌, Run, ok, ◌>>=◌, arith,
  ◌||◌, Bool-cases, inl, inr, ◌∙◌,
}
use pku_os_lab.Threads.Lists.Sequence.{Placed}
use pku_os_lab.Interrupt.{Interrupts, timer_int, is_idle, schedule, yield_on_return}
use pku_os_lab.Interrupt.Due.{Holds, Handled, returns, schedule-Scheduled, due-later_Placed}

-- `TimerTicks` of machine/stats.h
abbrev pub timer_ticks : ℕ
timer_ticks = 100

-- `handler` is the handler that is called with `arg`, and `self` the number of the object.
pub record Timer : Type 0 where
  pub randomize : Bool
  pub handler : ℕ → Interrupts → Run Interrupts
  pub arg : ℕ
  pub self : ℕ

unfoldable pub time_of_next_interrupt : Timer → ℕ → ℕ
time_of_next_interrupt timer random =
    if timer.randomize then 1 + random % (timer_ticks * 2) else timer_ticks

-- `timer_handler` is the number of the function `TimerHandler`.
module _ (timer_handler : ℕ) where
  unfoldable pub schedule_next : Timer → ℕ → Interrupts → Run Interrupts
  schedule_next timer random i =
      schedule i timer_handler timer.self (time_of_next_interrupt timer random) timer_int

  -- `Timer::Timer`
  unfoldable pub new_timer :
      (ℕ → Interrupts → Run Interrupts) → ℕ → Bool → ℕ → ℕ → Interrupts → Run (Timer × Interrupts)
  new_timer handler arg do_random self random i = do
    let timer : Timer = record { randomize = do_random; handler = handler; arg = arg; self = self }
    i' ← schedule_next timer random i
    ok (timer, i')

  -- `Timer::TimerExpired`
  unfoldable pub timer_expired : Timer → ℕ → Interrupts → Run Interrupts
  timer_expired timer random i = do i' ← schedule_next timer random i; timer.handler timer.arg i'

-- `TimerInterruptHandler`
unfoldable pub timer_interrupt_handler : ℕ → Interrupts → Run Interrupts
timer_interrupt_handler dummy i = if not (is_idle i.status) then yield_on_return i else ok i

time_of_next_interrupt_positive :
    (timer : Timer) (random : ℕ) → 0 < time_of_next_interrupt timer random
unfolding time_of_next_interrupt
time_of_next_interrupt_positive timer random = ground arith

-- A timer that calls `TimerInterruptHandler`, as `Initialize` makes it.
abbrev pub kernel_timer : Bool → ℕ → ℕ → Timer
kernel_timer randomize arg self = record {
  randomize = randomize;
  handler = timer_interrupt_handler;
  arg = arg;
  self = self;
}

-- What `TimerExpired` leaves, with `TimerInterruptHandler` as the handler.
pub record Expired (timer : Timer) (random : ℕ) (i : Interrupts) (xs : List (ℕ × ℕ))
    (r : Run Interrupts) : Type 0 where
  pub i' : Interrupts
  pub ys : List (ℕ × ℕ)
  pub runs : r ≡ ok i'
  pub holds : Holds i' ys
  pub placed : Placed (i.fresh, i.total_ticks + time_of_next_interrupt timer random) xs ys
  pub same_time : i'.total_ticks ≡ i.total_ticks
  pub yields : i'.yields ≡ (not (is_idle i.status) || i.yields)

pub timer_expired-Expired :
    (timer_handler : ℕ) (randomize : Bool) (arg self random : ℕ) (i : Interrupts)
    (xs : List (ℕ × ℕ))
    → Holds i xs
    → i.in_handler ≡ true
    → Expired
        (kernel_timer randomize arg self)
        random
        i
        xs
        (timer_expired timer_handler (kernel_timer randomize arg self) random i)
unfolding timer_expired schedule_next timer_interrupt_handler yield_on_return
timer_expired-Expired timer_handler randomize arg self random i xs h inside =
    let timer = kernel_timer randomize arg self in
    let s =
      schedule-Scheduled i xs timer_handler timer.self (time_of_next_interrupt timer random)
        timer_int h (time_of_next_interrupt_positive timer random) in
    rw s.runs (elim (Bool-cases (is_idle i.status)) [
      | inl idle ↦ record {
        i' = s.i';
        ys = s.ys;
        runs = rw (s.same_status, idle) refl;
        holds = s.holds;
        placed = s.placed;
        same_time = s.same_time;
        yields = s.same_yields ∙ rw idle refl;
      }
      | inr busy ↦ record {
        i' = record s.i' { yields = true };
        ys = s.ys;
        runs = rw (s.same_status, busy, s.same_handler, inside) refl;
        holds = record {
          represents = s.holds.represents;
          increasing = s.holds.increasing;
          off = s.holds.off;
        };
        placed = s.placed;
        same_time = s.same_time;
        yields = rw busy refl;
      }
    ])

-- It behaves as the loop over the pending interrupts asks of a handler.
pub timer_expired-Handled :
    (timer_handler : ℕ) (randomize : Bool) (arg self random : ℕ) (i : Interrupts)
    (xs : List (ℕ × ℕ))
    → Holds i xs
    → i.in_handler ≡ true
    → Handled i xs (timer_expired timer_handler (kernel_timer randomize arg self) random i)
timer_expired-Handled timer_handler randomize arg self random i xs h inside =
    let e = timer_expired-Expired timer_handler randomize arg self random i xs h inside in
    rw e.runs (
      returns e.i' e.ys e.holds e.same_time (
        due-later_Placed i.total_ticks i.fresh _ xs e.ys
          (time_of_next_interrupt_positive (kernel_timer randomize arg self) random) e.placed))
