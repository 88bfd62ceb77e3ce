-- ===== src/Threads/Scheduler/Lifecycle/Fork.antt =====
-- The start of a thread in threads/thread.cc.
use pku_os_lab.Common.{inl, inr, ℕ, ◌≡◌, refl, ◌∙◌, true, false, List, ◌++◌, ◌==◌, Run, ok, arith}
use pku_os_lab.Threads.Lists.{ListState}
use pku_os_lab.Threads.Lists.Chain.{Represents}
use pku_os_lab.Threads.Lists.Sequence.{Increasing, Placed, sorted_insert-Placed}
use pku_os_lab.Threads.Scheduler.{Kernel, ready, set_status}
use pku_os_lab.Threads.Scheduler.Priority.{
  listed, IsScheduled, listed-between, Different-between, All-between, waiting-other,
  ready_to_run-runs, still_ready,
}
use pku_os_lab.Threads.Scheduler.Lifecycle.{ThreadSystem, fork_thread}

-- The thread `t` is put among the ready threads `xs`.
pub data Forked (s : ThreadSystem) (t : ℕ) (xs : List (ℕ × ℕ)) : Run ThreadSystem → Type 0 where
  forked :
      (s' : ThreadSystem) (ys : List (ℕ × ℕ))
      → Placed (t, s.kernel.priority t) xs ys
      → IsScheduled s'.kernel ys
      → s'.kernel.current_thread ≡ s.kernel.current_thread
      → s'.in_run t ≡ false
      → Forked s t xs (ok s')

module _ (k : Kernel) (t : ℕ) (xs ys : List (ℕ × ℕ)) (h : IsScheduled k xs)
    (out : listed t xs ≡ false) (other : (t == k.current_thread) ≡ false)
    (p : Placed (t, k.priority t) xs ys) where
  ready_listed : (u : ℕ) → set_status k.status t ready u ≡ ready → listed u ys ≡ true
  ready_listed u e =
      let split = listed-between u (t, k.priority t) p.before p.after in
      elim (still_ready k.status t u ready e) [
        | inl (here, same) ↦ rw p.now (split ∙ ground (arith, here))
        | inr (not_here, was) ↦
            let rest : listed u (p.before ++ p.after) ≡ true = rw⁻¹ p.was (h.complete u was) in
            rw p.now (split ∙ ground (arith, rest))
      ]

  added-IsScheduled :
      (l : ListState)
      → Represents l ys
      → Increasing ys
      → IsScheduled (record k { ready_list = l; status = set_status k.status t ready }) ys
  added-IsScheduled l rep increasing = record {
    represents = rep;
    increasing = increasing;
    different =
        rw p.now (Different-between _ p.before p.after (rw⁻¹ p.was h.different) (rw⁻¹ p.was out));
    keyed = rw p.now (
        All-between (λ (y : ℕ × ℕ). y.1 ≡ k.priority y.0) _ p.before p.after (rw⁻¹ p.was h.keyed)
          refl);
    waiting = rw p.now (
        All-between (λ (y : ℕ × ℕ). set_status k.status t ready y.0 ≡ ready) _ p.before p.after
          (waiting-other k.status t ready (p.before ++ p.after) (rw⁻¹ p.was out)
            (rw⁻¹ p.was h.waiting))
          (ground arith));
    complete = ready_listed;
    not_listed = rw p.now (
        listed-between k.current_thread (t, k.priority t) p.before p.after
        ∙ rw⁻¹ p.was (ground (arith, h.not_listed, other)));
    runs = rw other h.runs;
  }

-- `Fork` of a thread that is neither ready nor running returns: the thread is ready and stands behind the ready threads
-- whose priority number is not larger and before the others, the caller goes on, and the invariant of the scheduler
-- holds again; when the thread is switched to, it starts at `ThreadRoot`.
pub fork_thread-Forked :
    (s : ThreadSystem) (t : ℕ) (xs : List (ℕ × ℕ))
    → IsScheduled s.kernel xs
    → listed t xs ≡ false
    → (t == s.kernel.current_thread) ≡ false
    → Forked s t xs (fork_thread t s)
unfolding fork_thread
fork_thread-Forked s t xs h out other =
    let k = s.kernel in
    let self : (t == t) ≡ true = ground arith in
    let (l', ys, runs, rep', increasing, placed) =
      sorted_insert-Placed k.ready_list xs t (k.priority t) h.represents h.increasing in
    rw (ready_to_run-runs k k.ready_list l' t runs) (
      forked _ ys placed (added-IsScheduled k t xs ys h out other placed l' rep' increasing) refl
        (rw self refl))
