-- ===== src/Threads/Scheduler/Table/Tests.antt =====
-- The theorem on the numbers of threads/thread.cc, at a concrete table.
use pku_os_lab.Common.{
  ℕ, ◌≡◌, refl, false, Option, none, some, ◌==◌, if◌then◌else◌, aborted, Bool-cases, inl, inr,
  arith,
}
use pku_os_lab.Threads.Scheduler.Table.{
  max_thread_num, Table, new_thread, first_free, delete_thread,
}
use pku_os_lab.Threads.Scheduler.Table.Names.{Unnamed, Named, new_thread-Named}
use pku_os_lab.Threads.Scheduler.Table.Example.{table, table-IsTable}

table-Unnamed : Unnamed table 9
table-Unnamed = record { nowhere = λ i u lt e. at i u e }
  where
    at : (i u : ℕ) → table.threads i ≡ some u → (9 == u) ≡ false
    at i u e = elim (Bool-cases (i == 0)) [
      | inl is_0 ↦ ground (arith, e, is_0)
      | inr not_0 ↦ ground (arith, e, not_0)
    ]

new_thread-Named_example : Named 9 table (new_thread 9 table)
new_thread-Named_example = new_thread-Named 9 table table-IsTable table-Unnamed

-- The number that a thread gets.
abbrev number : ℕ → Option Table → ℕ
number t none = max_thread_num
number t (some given) = given.thread_id t

abbrev without_3 : Table
without_3 = record table { flags = λ i. i == 1; threads = λ i. if i == 1 then some 7 else none }

new_thread_test : (number 9 (new_thread 9 table) ≡ 2) × (number 9 (new_thread 9 without_3) ≡ 0)
unfolding new_thread first_free
new_thread_test = (refl, refl)

delete_thread_test : delete_thread 3 3 table ≡ aborted
unfolding delete_thread
delete_thread_test = refl
