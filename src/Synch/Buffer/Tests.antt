-- ===== src/Synch/Buffer/Tests.antt =====
-- The theorems on the bounded buffer of threads/synch.cc, in a short run: thread 1 takes the lock, and
-- thread 2 sleeps for it.
use pku_os_lab.Common.{ℕ, ◌≡◌, refl, true, false, ◌||◌, ◌⊎◌, [], ◌∷◌, some, Run, ok}
use pku_os_lab.Synch.{acquire, p_pass, new_lock, wait, release, v}
use pku_os_lab.Synch.Buffer.{
  put, take, System, acquiring, move, new_buffer, calls, runs, Reach, here, next, try_acquire,
  run_thread, test_count, wait_for,
}
use pku_os_lab.Synch.Buffer.Held.{in_lock, is_asleep, is_acquiring}
use pku_os_lab.Synch.Buffer.Kinds.{IsSafe}
use pku_os_lab.Synch.Buffer.Safe.{Reach-IsSafe, run_thread_live}

-- What `ok` holds.
abbrev state : System → Run System → System
state s (ok s') = s'
state s Run.aborted = s

abbrev start : System
start = new_buffer (some 7) []

abbrev first_call : System
first_call = record start { place = move start.place 1 (acquiring take) }

abbrev second_call : System
second_call = record first_call { place = move first_call.place 2 (acquiring (put 5)) }

abbrev first_in : System
first_in = state second_call (run_thread 1 second_call)

abbrev second_asleep : System
second_asleep = state first_in (run_thread 2 first_in)

second_asleep-Reach : Reach start second_asleep
unfolding new_buffer try_acquire acquire p_pass new_lock
second_asleep-Reach =
    next
      (next (next (next here (calls 1 take start refl)) (calls 2 (put 5) first_call refl))
        (runs 1 second_call first_in refl))
      (runs 2 first_in second_asleep refl)

Reach-IsSafe_example : IsSafe second_asleep
Reach-IsSafe_example = Reach-IsSafe (some 7) [] second_asleep second_asleep-Reach

run_thread_live_example :
    ((s' : System) × (run_thread 2 second_asleep ≡ ok s'))
    × ((is_asleep (second_asleep.place 2) ≡ false)
        ⊎ ((u : ℕ) × ((in_lock (second_asleep.place u) || is_acquiring (second_asleep.place u))
              ≡ true)))
run_thread_live_example = run_thread_live (some 7) [] second_asleep second_asleep-Reach 2

acquire-asleep : second_asleep.lock.semaphore.queue ≡ 2 ∷ []
unfolding new_buffer try_acquire acquire p_pass new_lock
acquire-asleep = refl

-- The buffer is empty: thread 1 waits, and thread 2 is woken.
wait_for-empty : (state second_asleep (run_thread 1 second_asleep)).place 2 ≡ acquiring (put 5)
unfolding new_buffer try_acquire acquire p_pass new_lock test_count wait_for wait release v
wait_for-empty = refl
