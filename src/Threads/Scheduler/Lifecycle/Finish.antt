-- ===== src/Threads/Scheduler/Lifecycle/Finish.antt =====
-- The end of a thread in threads/thread.cc.
use pku_os_lab.Common.{
  ℕ, suc, ◌≡◌, refl, true, false, List, ◌∷◌, Option, none, some, ◌==◌, Run, ok, Bool-cases, arith,
  inl, inr,
}
use pku_os_lab.Threads.Lists.{ListState, sorted_remove, remove_first}
use pku_os_lab.Threads.Lists.Chain.{Represents}
use pku_os_lab.Threads.Lists.Sequence.{Removed, first, sorted_remove-Removed}
use pku_os_lab.Threads.Scheduler.{
  Kernel, ready, blocked, running, set_status, find_next_to_run, run,
}
use pku_os_lab.Threads.Scheduler.Priority.{listed, IsScheduled, waiting-other, still_ready}
use pku_os_lab.Threads.Scheduler.Table.Names.{IsTable, IsFreed, delete_thread-IsFreed}
use pku_os_lab.Threads.Scheduler.Lifecycle.Sleep.{at_once, sleep-Wakes}
use pku_os_lab.Threads.Scheduler.Lifecycle.{ThreadSystem, dispatch, dispatched, finish}

-- What `Finish` of the running thread leads to, when `next` is the first ready thread and `rest` are the others.
pub data Finished (s : ThreadSystem) (next : ℕ) (rest : List (ℕ × ℕ))
    : Run (Option ThreadSystem) → Type 0 where
  resumes :
      (s' : ThreadSystem)
      → s.in_run next ≡ true
      → s'.kernel.current_thread ≡ next
      → IsScheduled s'.kernel rest
      → s'.to_be_destroyed ≡ none
      → IsFreed s.table s'.table s.kernel.current_thread
      → Finished s next rest (ok (some s'))
  starts :
      (s' : ThreadSystem)
      → s.in_run next ≡ false
      → s'.kernel.current_thread ≡ next
      → IsScheduled s'.kernel rest
      → s'.to_be_destroyed ≡ some s.kernel.current_thread
      → s'.table ≡ s.table
      → Finished s next rest (ok (some s'))

-- The kernel whose running thread sleeps, and the next one runs.
abbrev switched : Kernel → ListState → ℕ → Kernel
switched k l next =
    run (record k { ready_list = l; status = set_status k.status k.current_thread blocked }) next

switched-IsScheduled :
    (k : Kernel) (l : ListState) (x : ℕ × ℕ) (xs : List (ℕ × ℕ))
    → IsScheduled k (x ∷ xs)
    → Represents l xs
    → IsScheduled (switched k l x.0) xs
unfolding run
switched-IsScheduled k l x xs s rep = record {
  represents = rep;
  increasing = s.increasing.1;
  different = s.different.1;
  keyed = s.keyed.1;
  waiting =
      waiting-other (set_status k.status k.current_thread blocked) x.0 running xs s.different.0 (
        waiting-other k.status k.current_thread blocked xs (ground (arith, s.not_listed))
          s.waiting.1);
  complete = λ t e. still_listed t e;
  not_listed = s.different.0;
  runs = ground arith;
}
  where
    still_listed :
        (t : ℕ)
        → set_status (set_status k.status k.current_thread blocked) x.0 running t ≡ ready
        → listed t xs ≡ true
    still_listed t e =
        elim (still_ready (set_status k.status k.current_thread blocked) x.0 t running e) [
          | inl (same, clashes) ↦ absurd cc
          | inr (not_next, before) ↦ elim (still_ready k.status k.current_thread t blocked before) [
            | inl (same, clashes) ↦ absurd cc
            | inr (not_here, was) ↦ let there = s.complete t was in ground (arith, there, not_next)
          ]
        ]

-- The first ready thread is found at once.
find_next_to_run-first :
    (k : Kernel) (x : ℕ × ℕ) (xs : List (ℕ × ℕ)) (r : Run (Option (ℕ × ℕ) × ListState))
    → Removed k.ready_list (x ∷ xs) r
    → sorted_remove k.ready_list ≡ r
    → (l : ListState) × Represents l xs
      × (find_next_to_run k ≡ ok (some x.0, record k { ready_list = l }))
unfolding find_next_to_run remove_first
find_next_to_run-first k _ _ _ (first x xs l rep) e = (l, rep, rw e refl)

module _ (s : ThreadSystem) (x : ℕ × ℕ) (xs : List (ℕ × ℕ)) (h : IsScheduled s.kernel (x ∷ xs))
    (ok_table : IsTable s.table) where
  apart : (s.kernel.current_thread == x.0) ≡ false
  apart = ground (arith, h.not_listed)

  dispatch-Finished :
      (l : ListState)
      → Represents l xs
      → Finished s x.0 xs (
          dispatched
            (record s { to_be_destroyed = some s.kernel.current_thread })
            (some (
              x.0,
              record s.kernel {
                ready_list = l;
                status = set_status s.kernel.status s.kernel.current_thread blocked;
              },
            )))
  unfolding dispatch run
  dispatch-Finished l rep = elim (Bool-cases (s.in_run x.0)) [
    | inl before ↦
        let (table', runs, freed) =
          delete_thread-IsFreed s.kernel.current_thread x.0 s.table ok_table apart in
        rw (apart, before)
          (rw runs (resumes _ before refl (switched-IsScheduled s.kernel l x xs h rep) refl freed))
    | inr fresh ↦
        rw (apart, fresh)
          (starts _ fresh refl (switched-IsScheduled s.kernel l x xs h rep) refl refl)
  ]

  -- `Finish` of the running thread, while others are ready: the first ready thread runs next and the ready list keeps
  -- the others, in order. If that thread was switched from in `Run` before, it deletes the one that finished there:
  -- its number is free again and the rest of the table is as it was. If it has not run yet, it starts at `ThreadRoot`,
  -- nothing is deleted, and the finished thread is kept in `threadToBeDestroyed` in place of the one that was there
  -- before, which then keeps its number.
  pub finish-Finished :
      (idle : Kernel → Run Kernel) (fuel : ℕ)
      → Finished s x.0 xs (finish idle (suc fuel) s.kernel.current_thread s)
  unfolding finish
  finish-Finished idle fuel =
      let c = s.kernel.current_thread in
      let self : (c == c) ≡ true = ground arith in
      let k' : Kernel = record s.kernel { status = set_status s.kernel.status c blocked } in
      let (l, rep, found) =
        find_next_to_run-first k' x xs _
          (sorted_remove-Removed s.kernel.ready_list (x ∷ xs) h.represents) refl in
      rw self (
        rw
          (sleep-Wakes idle (suc fuel) 0 x.0 (record s { to_be_destroyed = some c })
            (record k' { ready_list = l }) (at_once k' found) (omega arith))
          (dispatch-Finished l rep))
