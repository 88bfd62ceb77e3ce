-- ===== src/Threads/Scheduler/Table.antt =====
-- `tFlag` and `allThread` of threads/system.cc, with the constructor and the destructor of `Thread` in
-- threads/thread.cc: the numbers that threads are known by. A `Thread` object is a number of its own.
pub mod Names
pub mod Example
mod Tests
use pku_os_lab.Common.{
  ℕ, zero, suc, ◌+◌, Bool, true, false, not, Option, none, some, ◌==◌, if◌then◌else◌, Run, ok, ◌>>◌,
  assert,
}

-- `MAX_THREAD_NUM`
abbrev pub max_thread_num : ℕ
max_thread_num = 128

-- `tFlag` and `allThread`, and the field `threadId` of each object.
pub record Table : Type 0 where
  pub flags : ℕ → Bool
  pub threads : ℕ → Option ℕ
  pub thread_id : ℕ → ℕ

-- `Initialize` of threads/system.cc, with what the objects' memory holds.
abbrev pub new_table : (ℕ → ℕ) → Table
new_table garbage = record { flags = λ i. false; threads = λ i. none; thread_id = garbage }

-- The loop of the constructor from `i` on, over `n` entries.
pub first_free : (ℕ → Bool) → ℕ → ℕ → Option ℕ
first_free flags zero i = none
first_free flags (suc n) i =
    let rest = first_free flags n (i + 1) in if flags i then rest else some i

abbrev pub with_id : Table → ℕ → Option ℕ → Option Table
with_id table t none = none
with_id table t (some i) = some (record {
  flags = λ j. if i == j then true else table.flags j;
  threads = λ j. if i == j then some t else table.threads j;
  thread_id = λ u. if t == u then i else table.thread_id u;
})

-- `Thread::Thread` of the object `t`; nothing where it throws.
pub new_thread : ℕ → Table → Option Table
new_thread t table = with_id table t (first_free table.flags max_thread_num 0)

-- `Thread::~Thread` of the object `t`.
pub delete_thread : ℕ → ℕ → Table → Run Table
delete_thread t current table =
    assert (not (t == current))
    >> ok (record table {
      flags = λ j. if table.thread_id t == j then false else table.flags j;
      threads = λ j. if table.thread_id t == j then none else table.threads j;
    })
