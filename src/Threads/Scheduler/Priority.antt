-- ===== src/Threads/Scheduler/Priority.antt =====
-- The order in which `Yield` of threads/thread.cc lets threads run.
use pku_os_lab.Common.{
  ℕ, ◌≡◌, refl, ◌∙◌, Bool, true, false, ◌||◌, ◌⊎◌, inl, inr, Bool-cases, List, [], ◌∷◌, ◌++◌,
  Option, ◌==◌, arith, Run, ok, aborted, ◌>>=◌, All,
}
use pku_os_lab.Threads.Lists.{ListState, sorted_insert, sorted_remove, remove_first, item_of}
use pku_os_lab.Threads.Lists.Chain.{Represents}
use pku_os_lab.Threads.Lists.Sequence.{
  Removed, nothing, first, sorted_remove-Removed, Increasing, Placed, sorted_insert-Placed,
}
use pku_os_lab.Threads.Scheduler.{
  Kernel, ThreadStatus, ready, running, set_status, ready_to_run, find_next_to_run, run, switch_to,
  yield_cpu,
}

-- The thread `t` is among the items.
abbrev pub listed : ℕ → List (ℕ × ℕ) → Bool
listed t [] = false
listed t (x ∷ xs) = t == x.0 || listed t xs

abbrev pub Different : List (ℕ × ℕ) → Type 0
Different [] = Unit
Different (x ∷ xs) = (listed x.0 xs ≡ false) × Different xs

-- The ready list holds `xs`, in the order of the threads' priorities: just the threads with status READY, each once,
-- and not the running one.
pub record IsScheduled (k : Kernel) (xs : List (ℕ × ℕ)) : Type 0 where
  pub represents : Represents k.ready_list xs
  pub increasing : Increasing xs
  pub different : Different xs
  pub keyed : All (λ (x : ℕ × ℕ). x.1 ≡ k.priority x.0) xs
  pub waiting : All (λ (x : ℕ × ℕ). k.status x.0 ≡ ready) xs
  pub complete : (t : ℕ) → k.status t ≡ ready → listed t xs ≡ true
  pub not_listed : listed k.current_thread xs ≡ false
  pub runs : k.status k.current_thread ≡ running

listed-append : (t : ℕ) (xs ys : List (ℕ × ℕ)) → listed t (xs ++ ys) ≡ (listed t xs || listed t ys)
listed-append t [] ys = refl
listed-append t (x ∷ xs) ys = rw (listed-append t xs ys) (ground arith)

-- A thread that is put in between.
pub listed-between :
    (t : ℕ) (x : ℕ × ℕ) (xs ys : List (ℕ × ℕ))
    → listed t (xs ++ (x ∷ ys)) ≡ (t == x.0 || listed t (xs ++ ys))
listed-between t x [] ys = refl
listed-between t x (z ∷ xs) ys = rw (listed-between t x xs ys) (ground arith)

pub Different-between :
    (x : ℕ × ℕ) (xs ys : List (ℕ × ℕ))
    → Different (xs ++ ys)
    → listed x.0 (xs ++ ys) ≡ false
    → Different (xs ++ (x ∷ ys))
Different-between x [] ys d out = (out, d)
Different-between x (z ∷ xs) ys d out = (
  listed-between z.0 x xs ys ∙ ground (arith, d.0, out),
  Different-between x xs ys d.1 (ground (arith, out)),
)

pub All-between :
    (P : ℕ × ℕ → Type 0) (x : ℕ × ℕ) (xs ys : List (ℕ × ℕ))
    → All P (xs ++ ys)
    → P x
    → All P (xs ++ (x ∷ ys))
All-between P x [] ys h p = (p, h)
All-between P x (z ∷ xs) ys h p = (h.0, All-between P x xs ys h.1 p)

-- A change of the status of a thread that is not listed.
pub waiting-other :
    (status : ℕ → ThreadStatus) (t : ℕ) (s : ThreadStatus) (xs : List (ℕ × ℕ))
    → listed t xs ≡ false
    → All (λ (x : ℕ × ℕ). status x.0 ≡ ready) xs
    → All (λ (x : ℕ × ℕ). set_status status t s x.0 ≡ ready) xs
waiting-other status t s [] out h = tt
waiting-other status t s (x ∷ xs) out h =
    (ground (arith, out, h.0), waiting-other status t s xs (ground (arith, out)) h.1)

-- A thread whose new status is READY got it now, or had it before.
pub still_ready :
    (status : ℕ → ThreadStatus) (t u : ℕ) (s : ThreadStatus)
    → set_status status t s u ≡ ready
    → (((t == u) ≡ true) × (s ≡ ready)) ⊎ (((t == u) ≡ false) × (status u ≡ ready))
still_ready status t u s h = elim (Bool-cases (t == u)) [
  | inl same ↦ inl (same, rw same at h)
  | inr other ↦ inr (other, rw other at h)
]

-- What `Yield` may do with the ready threads `xs`.
pub data Yielded (k : Kernel) : List (ℕ × ℕ) → Run Kernel → Type 0 where
  alone : Yielded k [] (ok k)
  switched :
      (x : ℕ × ℕ) (xs ys : List (ℕ × ℕ)) (k' : Kernel)
      → k'.current_thread ≡ x.0
      → k'.priority ≡ k.priority
      → Placed (k.current_thread, k.priority k.current_thread) xs ys
      → IsScheduled k' ys
      → Yielded k (x ∷ xs) (ok k')

abbrev first_item : Option (ℕ × ℕ) × ListState → Option ℕ × ListState
first_item o = (item_of o.0, o.1)

abbrev with_list : Kernel → Option ℕ × ListState → Option ℕ × Kernel
with_list k o = (o.0, record k { ready_list = o.1 })

-- `Yield` after the removal of the first ready thread.
abbrev after_removal : Kernel → Run (Option (ℕ × ℕ) × ListState) → Run Kernel
after_removal k r = r >>= λ o. switch_to k.current_thread (with_list k (first_item o))

same_thread : (t : ℕ) → (t == t) ≡ true
same_thread t = ground arith

removal :
    (k : Kernel) (r : Run (Option (ℕ × ℕ) × ListState))
    → (((r >>= λ o. ok (first_item o)) >>= λ o. ok (with_list k o)) >>= λ p.
        switch_to k.current_thread p)
      ≡ after_removal k r
removal k (ok (o, l)) = refl
removal k aborted = refl

yield_cpu-after_removal :
    (k : Kernel) → yield_cpu k k.current_thread ≡ after_removal k (sorted_remove k.ready_list)
unfolding yield_cpu find_next_to_run remove_first
yield_cpu-after_removal k =
    rw (same_thread k.current_thread) (removal k (sorted_remove k.ready_list))

module _ (k : Kernel) (x : ℕ × ℕ) (xs ys : List (ℕ × ℕ)) (s : IsScheduled k (x ∷ xs))
    (p : Placed (k.current_thread, k.priority k.current_thread) xs ys) where
  -- The running thread goes among the ready ones.
  abbrev ready_status : ℕ → ThreadStatus
  ready_status = set_status k.status k.current_thread ready

  head_unlisted : listed x.0 ys ≡ false
  head_unlisted = rw p.now (
      listed-between x.0 (k.current_thread, k.priority k.current_thread) p.before p.after
      ∙ rw⁻¹ p.was (ground (arith, s.not_listed, s.different.0)))

  ready_waiting : All (λ (y : ℕ × ℕ). ready_status y.0 ≡ ready) ys
  ready_waiting = rw p.now (
      All-between (λ (y : ℕ × ℕ). ready_status y.0 ≡ ready)
        (k.current_thread, k.priority k.current_thread) p.before p.after
        (waiting-other k.status k.current_thread ready (p.before ++ p.after)
          (rw⁻¹ p.was (ground (arith, s.not_listed))) (rw⁻¹ p.was s.waiting.1))
        (ground arith))

  -- Which threads are ready after the switch.
  ready_listed : (t : ℕ) → set_status ready_status x.0 running t ≡ ready → listed t ys ≡ true
  ready_listed t h = elim (still_ready ready_status x.0 t running h) [
    | inl (same, e) ↦ absurd cc
    | inr (not_next, before) ↦
        let split =
          listed-between t (k.current_thread, k.priority k.current_thread) p.before p.after in
        elim (still_ready k.status k.current_thread t ready before) [
          | inl (here, e) ↦ rw p.now (split ∙ ground (arith, here))
          | inr (not_here, was) ↦
              let there = s.complete t was in
              let rest : listed t (p.before ++ p.after) ≡ true =
                rw⁻¹ p.was (ground (arith, there, not_next)) in
              rw p.now (split ∙ ground (arith, rest))
        ]
  ]

  switched-IsScheduled :
      (l : ListState)
      → Represents l ys
      → Increasing ys
      → IsScheduled (run (record k { ready_list = l; status = ready_status }) x.0) ys
  unfolding run
  switched-IsScheduled l r increasing = record {
    represents = r;
    increasing = increasing;
    different = rw p.now (
        Different-between _ p.before p.after (rw⁻¹ p.was s.different.1)
          (rw⁻¹ p.was (ground (arith, s.not_listed))));
    keyed = rw p.now (
        All-between (λ (y : ℕ × ℕ). y.1 ≡ k.priority y.0) _ p.before p.after (rw⁻¹ p.was s.keyed.1)
          refl);
    waiting = waiting-other ready_status x.0 running ys head_unlisted ready_waiting;
    complete = ready_listed;
    not_listed = head_unlisted;
    runs = ground arith;
  }

pub ready_to_run-runs :
    (k : Kernel) (l l' : ListState) (t : ℕ)
    → sorted_insert l t (k.priority t) ≡ ok l'
    → ready_to_run (record k { ready_list = l }) t
      ≡ ok (record k { ready_list = l'; status = set_status k.status t ready })
unfolding ready_to_run
ready_to_run-runs k l l' t h = rw h refl

after_removal-Yielded :
    (k : Kernel) (xs : List (ℕ × ℕ)) (r : Run (Option (ℕ × ℕ) × ListState))
    → IsScheduled k xs
    → Removed k.ready_list xs r
    → Yielded k xs (after_removal k r)
unfolding run
after_removal-Yielded k _ (ok _) s nothing = alone
after_removal-Yielded k _ (ok _) s (first x xs l rep) =
    let c = k.current_thread in
    let (l', ys, runs, rep', increasing, placed) =
      sorted_insert-Placed l xs c (k.priority c) rep s.increasing.1 in
    rw (ready_to_run-runs k l l' c runs) (
      switched x xs ys _ refl refl placed
        (switched-IsScheduled k x xs ys s placed l' rep' increasing))
after_removal-Yielded k xs aborted s h = elim h [ ]

-- Between calls the ready list is in the order of the priorities, holds each ready thread once, and not
-- the running one. `Yield` of the running thread then returns at once if no thread is ready. Otherwise
-- the first ready thread runs next, whatever its priority, and the old one is ready and stands behind
-- all threads whose priority number is not larger; the invariant holds again.
pub yield_cpu-Yielded :
    (k : Kernel) (xs : List (ℕ × ℕ))
    → IsScheduled k xs
    → Yielded k xs (yield_cpu k k.current_thread)
yield_cpu-Yielded k xs s =
    rw (yield_cpu-after_removal k)
      (after_removal-Yielded k xs _ s (sorted_remove-Removed k.ready_list xs s.represents))
