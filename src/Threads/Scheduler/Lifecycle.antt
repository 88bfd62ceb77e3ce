-- ===== src/Threads/Scheduler/Lifecycle.antt =====
-- `Fork`, `Sleep` and `Finish` of threads/thread.cc, and the end of `Run` of threads/scheduler.cc, which deletes the
-- thread that finished. They run with interrupts off; the stacks are left out, but for whether a thread goes on in
-- `Run` when it is switched to, or starts at `ThreadRoot`.
pub mod Fork
pub mod Sleep
pub mod Finish
mod Tests
use pku_os_lab.Common.{
  ℕ, zero, suc, Bool, true, false, Option, none, some, ◌==◌, if◌then◌else◌, Run, ok, ◌>>=◌, ◌>>◌,
  assert,
}
use pku_os_lab.Threads.Scheduler.{
  Kernel, just_created, blocked, set_status, ready_to_run, find_next_to_run, run,
}
use pku_os_lab.Threads.Scheduler.Table.{Table, new_thread, delete_thread}

-- `in_run t` holds if `t` was switched from in `Run` and goes on there.
pub record ThreadSystem : Type 0 where
  pub kernel : Kernel
  pub table : Table
  pub to_be_destroyed : Option ℕ
  pub in_run : ℕ → Bool

abbrev pub with_table : ThreadSystem → ℕ → ℕ → Option Table → Option ThreadSystem
with_table s t pri none = none
with_table s t pri (some table) = some (record s {
  table = table;
  kernel = record s.kernel {
    status = set_status s.kernel.status t just_created;
    priority = λ u. if t == u then pri else s.kernel.priority u;
  };
})

-- `new Thread(name, pri)`; nothing where it throws.
pub create_thread : ℕ → ℕ → ThreadSystem → Option ThreadSystem
create_thread t pri s = with_table s t pri (new_thread t s.table)

-- `Thread::Fork`
pub fork_thread : ℕ → ThreadSystem → Run ThreadSystem
fork_thread t s = do
  k ← ready_to_run s.kernel t
  ok (record s { kernel = k; in_run = λ u. if t == u then false else s.in_run u })

-- `if (threadToBeDestroyed != NULL) ...`
abbrev pub destroyed : Option ℕ → ThreadSystem → Run ThreadSystem
destroyed none s = ok s
destroyed (some t) s = do
  table ← delete_thread t s.kernel.current_thread s.table
  ok (record s { table = table; to_be_destroyed = none })

-- After `SWITCH`, on the stack of the thread that now runs.
abbrev pub after_switch : Bool → ThreadSystem → Run ThreadSystem
after_switch true s = destroyed s.to_be_destroyed s
after_switch false s = ok s

-- `Scheduler::Run`
pub dispatch : ℕ → ThreadSystem → Run ThreadSystem
dispatch next s =
    let old = s.kernel.current_thread in
    let in_run : ℕ → Bool = λ u. if old == u then true else s.in_run u in
    after_switch (in_run next) (record s { kernel = run s.kernel next; in_run = in_run })

-- The loop of `Sleep`, with fuel, where `idle` is `interrupt->Idle()`; nothing when the fuel is used up.
pub find_thread : (Kernel → Run Kernel) → ℕ → Kernel → Run (Option (ℕ × Kernel))
find_thread idle zero k = ok none
find_thread idle (suc n) k = do
  r ← find_next_to_run k
  elim r.0 [ some next ↦ ok (some (next, r.1)) | none ↦ (do k' ← idle r.1; find_thread idle n k') ]

abbrev pub dispatched : ThreadSystem → Option (ℕ × Kernel) → Run (Option ThreadSystem)
dispatched s none = ok none
dispatched s (some r) = do s' ← dispatch r.0 (record s { kernel = r.1 }); ok (some s')

-- `Thread::Sleep` of the thread `this`
pub sleep : (Kernel → Run Kernel) → ℕ → ℕ → ThreadSystem → Run (Option ThreadSystem)
sleep idle fuel this s = do
  assert (this == s.kernel.current_thread)
  r ← find_thread idle fuel (record s.kernel { status = set_status s.kernel.status this blocked })
  dispatched s r

-- `Thread::Finish` of the thread `this`
pub finish : (Kernel → Run Kernel) → ℕ → ℕ → ThreadSystem → Run (Option ThreadSystem)
finish idle fuel this s = do
  assert (this == s.kernel.current_thread)
  sleep idle fuel this (record s { to_be_destroyed = some s.kernel.current_thread })
