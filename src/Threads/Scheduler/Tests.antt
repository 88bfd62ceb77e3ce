-- ===== src/Threads/Scheduler/Tests.antt =====
-- The theorem on threads/thread.cc and scheduler.cc, at a concrete kernel.
use pku_os_lab.Common.{[], ◌∷◌}
use pku_os_lab.Threads.Scheduler.Example.{kernel, kernel-IsScheduled}
use pku_os_lab.Threads.Scheduler.{yield_cpu}
use pku_os_lab.Threads.Scheduler.Priority.{Yielded, yield_cpu-Yielded}

yield_cpu-Yielded_example : Yielded kernel ((7, 2) ∷ ((8, 5) ∷ [])) (yield_cpu kernel 3)
yield_cpu-Yielded_example = yield_cpu-Yielded kernel ((7, 2) ∷ ((8, 5) ∷ [])) kernel-IsScheduled
