-- ===== src/Interrupt/Tests.antt =====
-- The pending interrupts of machine/interrupt.cc, at concrete states.
use pku_os_lab.Common.{◌≡◌, true, List, ℕ, refl, false, [], ◌∷◌, Run, ok}
use pku_os_lab.Threads.Lists.Example.{two, two-Represents, two-Increasing}
use pku_os_lab.Interrupt.{Interrupts, disk_int, system_mode, check_all}
use pku_os_lab.Interrupt.Due.{Holds, Handled}
use pku_os_lab.Interrupt.Timer.{kernel_timer, timer_expired, timer_expired-Handled}
use pku_os_lab.Interrupt.Loop.{check_all-Drained, Drained}

-- The interrupt 7 is due at time 2 and the interrupt 8 at time 5; it is time 3.
abbrev at_three : Interrupts
at_three = record {
  level = false;
  pending = two;
  in_handler = false;
  yields = false;
  status = system_mode;
  objects = λ a. record { handler = 1; arg = a; due_time = 2; kind = disk_int };
  fresh = 20;
  total_ticks = 3;
  idle_ticks = 0;
  system_ticks = 0;
  user_ticks = 0;
}

-- Every handler is that of the timer of machine/timer.cc.
abbrev again : ℕ → ℕ → Interrupts → Run Interrupts
again handler arg i = timer_expired 1 (kernel_timer false 0 arg) 0 i

again-Handled :
    (h a : ℕ) (i : Interrupts) (xs : List (ℕ × ℕ))
    → Holds i xs
    → i.in_handler ≡ true
    → Handled i xs (again h a i)
again-Handled h a i xs held inside = timer_expired-Handled 1 false 0 a 0 i xs held inside

check_all-Drained_example : Drained at_three (check_all again (λ i. ok i) 2 at_three)
check_all-Drained_example =
    check_all-Drained again (λ i. ok i) again-Handled at_three ((7, 2) ∷ ((8, 5) ∷ []))
      (record { represents = two-Represents; increasing = two-Increasing; off = refl }) refl

abbrev inside : Interrupts
inside = record at_three { in_handler = true }
