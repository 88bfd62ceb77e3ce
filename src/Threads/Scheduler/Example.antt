-- ===== src/Threads/Scheduler/Example.antt =====
-- A kernel of threads/scheduler.cc for the tests: thread 3 runs, and 7 and 8 are ready.
use pku_os_lab.Common.{ℕ, ◌≡◌, true, Bool-cases, inl, inr, refl, [], ◌∷◌, ◌==◌, if◌then◌else◌}
use pku_os_lab.Threads.Lists.Example.{two, two-Represents, two-Increasing}
use pku_os_lab.Threads.Scheduler.{Kernel, ready, running, blocked}
use pku_os_lab.Threads.Scheduler.Priority.{listed, IsScheduled}

abbrev pub kernel : Kernel
kernel = record {
  ready_list = two;
  status =
      λ t. if t == 3 then running else if t == 7 then ready else if t == 8 then ready else blocked;
  priority = λ t. if t == 8 then 5 else 2;
  current_thread = 3;
}

pub kernel-IsScheduled : IsScheduled kernel ((7, 2) ∷ ((8, 5) ∷ []))
kernel-IsScheduled = record {
  represents = two-Represents;
  increasing = two-Increasing;
  different = (refl, (refl, tt));
  keyed = (refl, (refl, tt));
  waiting = (refl, (refl, tt));
  complete = at;
  not_listed = refl;
  runs = refl;
}
  where
    at : (t : ℕ) → kernel.status t ≡ ready → listed t ((7, 2) ∷ ((8, 5) ∷ [])) ≡ true
    at t e = elim (Bool-cases (t == 3)) [
      | inl is_3 ↦ absurd (not_running (rw is_3 at e))
      | inr not_3 ↦ elim (Bool-cases (t == 7)) [
        | inl is_7 ↦ rw is_7 refl
        | inr not_7 ↦ elim (Bool-cases (t == 8)) [
          | inl is_8 ↦ rw (not_7, is_8) refl
          | inr not_8 ↦ absurd (not_blocked (rw (not_3, not_7, not_8) at e))
        ]
      ]
    ]
      where
        not_running : running ≡ ready → ⊥
        not_running h = cc

        not_blocked : blocked ≡ ready → ⊥
        not_blocked h = cc
