-- ===== src/Threads/Scheduler.antt =====
-- threads/scheduler.cc, and `Yield` of threads/thread.cc, as they are built without `USE_PREEMPTIVE` and
-- `USER_PROGRAM`. A thread is a number. The kernel's state is the ready list, the status and priority of
-- each thread and the thread that runs; the switch of stacks is the change of `current_thread`.
pub mod Priority
pub mod Table
pub mod Lifecycle
pub mod Example
mod Tests
use pku_os_lab.Common.{
  ℕ, Bool, Option, none, some, ◌==◌, if◌then◌else◌, Run, ok, ◌>>=◌, ◌>>◌, assert,
}
use pku_os_lab.Threads.Lists.{ListState, sorted_insert, remove_first}

pub data ThreadStatus : Type 0 where
  just_created running ready blocked : ThreadStatus

pub record Kernel : Type 0 where
  pub ready_list : ListState
  pub status : ℕ → ThreadStatus
  pub priority : ℕ → ℕ
  pub current_thread : ℕ

-- `setStatus`
abbrev pub set_status : (ℕ → ThreadStatus) → ℕ → ThreadStatus → ℕ → ThreadStatus
set_status status t s u = if t == u then s else status u

-- `Scheduler::ReadyToRun`
pub ready_to_run : Kernel → ℕ → Run Kernel
ready_to_run k t = do
  list ← sorted_insert k.ready_list t (k.priority t)
  ok (record k { ready_list = list; status = set_status k.status t ready })

-- `Scheduler::FindNextToRun`
pub find_next_to_run : Kernel → Run (Option ℕ × Kernel)
find_next_to_run k = do
  (next, list) ← remove_first k.ready_list
  ok (next, record k { ready_list = list })

-- `Scheduler::Run`
pub run : Kernel → ℕ → Kernel
run k next = record k { current_thread = next; status = set_status k.status next running }

abbrev pub switch_to : ℕ → Option ℕ × Kernel → Run Kernel
switch_to this (none, k) = ok k
switch_to this (some next, k) = do k' ← ready_to_run k this; ok (run k' next)

-- `Thread::Yield`, called on the thread `this`
pub yield_cpu : Kernel → ℕ → Run Kernel
yield_cpu k this = do assert (this == k.current_thread); r ← find_next_to_run k; switch_to this r
