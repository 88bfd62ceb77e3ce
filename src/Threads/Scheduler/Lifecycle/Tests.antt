-- ===== src/Threads/Scheduler/Lifecycle/Tests.antt =====
-- The theorems on threads/thread.cc where thread 3 runs, and 7 and 8 are ready.
use pku_os_lab.Common.{refl, [], ◌∷◌, none, ◌==◌, ok}
use pku_os_lab.Threads.Scheduler.Example.{kernel, kernel-IsScheduled}
use pku_os_lab.Threads.Scheduler.Table.Example.{table, table-IsTable}
use pku_os_lab.Threads.Scheduler.Lifecycle.{ThreadSystem, fork_thread, finish}
use pku_os_lab.Threads.Scheduler.Lifecycle.Fork.{Forked, fork_thread-Forked}
use pku_os_lab.Threads.Scheduler.Lifecycle.Finish.{Finished, finish-Finished}

abbrev system : ThreadSystem
system = record { kernel = kernel; table = table; to_be_destroyed = none; in_run = λ t. t == 7 }

fork_thread-Forked_example : Forked system 9 ((7, 2) ∷ ((8, 5) ∷ [])) (fork_thread 9 system)
fork_thread-Forked_example =
    fork_thread-Forked system 9 ((7, 2) ∷ ((8, 5) ∷ [])) kernel-IsScheduled refl refl

finish-Finished_example : Finished system 7 ((8, 5) ∷ []) (finish (λ k. ok k) 1 3 system)
finish-Finished_example =
    finish-Finished system (7, 2) ((8, 5) ∷ []) kernel-IsScheduled table-IsTable (λ k. ok k) 0
