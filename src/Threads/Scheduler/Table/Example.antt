-- ===== src/Threads/Scheduler/Table/Example.antt =====
-- A table of threads of threads/system.cc for the tests.
use pku_os_lab.Common.{ℕ, ◌<◌, true, none, some, ◌==◌, if◌then◌else◌, Bool-cases, inl, inr, arith}
use pku_os_lab.Threads.Scheduler.Table.{max_thread_num, Table}
use pku_os_lab.Threads.Scheduler.Table.Names.{Entry, free, names, IsTable}

-- The numbers of the threads 3 and 7 are 0 and 1.
abbrev pub table : Table
table = record {
  flags = λ i. if i == 0 then true else i == 1;
  threads = λ i. if i == 0 then some 3 else if i == 1 then some 7 else none;
  thread_id = λ t. if t == 3 then 0 else 1;
}

pub table-IsTable : IsTable table
table-IsTable = record { entry = at }
  where
    at : (i : ℕ) → i < max_thread_num → Entry table i (table.flags i) (table.threads i)
    at i lt = elim (Bool-cases (i == 0)) [
      | inl is_0 ↦ rw is_0 (names 3 (ground (arith, is_0)))
      | inr not_0 ↦ elim (Bool-cases (i == 1)) [
        | inl is_1 ↦ rw (not_0, is_1) (names 7 (ground (arith, is_1)))
        | inr not_1 ↦ rw (not_0, not_1) free
      ]
    ]
