-- ===== src/Threads/Scheduler/Lifecycle/Sleep.antt =====
-- The loop of `Sleep` of threads/thread.cc.
use pku_os_lab.Common.{ℕ, zero, suc, ◌<◌, ◌≡◌, refl, true, none, some, ◌==◌, Run, ok, ◌>>=◌, arith}
use pku_os_lab.Threads.Scheduler.{Kernel, blocked, set_status, find_next_to_run}
use pku_os_lab.Threads.Scheduler.Lifecycle.{ThreadSystem, dispatch, find_thread, sleep}

-- After `m` calls of `Idle` the thread `next` is the first that is ready, and is taken from the list.
pub data Wakes (idle : Kernel → Run Kernel) (next : ℕ) (after : Kernel) : ℕ → Kernel → Type 0 where
  at_once : (k : Kernel) → find_next_to_run k ≡ ok (some next, after) → Wakes idle next after zero k
  idles :
      (m : ℕ) (k empty woken : Kernel)
      → find_next_to_run k ≡ ok (none, empty)
      → idle empty ≡ ok woken
      → Wakes idle next after m woken
      → Wakes idle next after (suc m) k

find_thread-Wakes :
    (idle : Kernel → Run Kernel) (next : ℕ) (after : Kernel) (m : ℕ) (k : Kernel) (fuel : ℕ)
    → Wakes idle next after m k
    → m < fuel
    → find_thread idle fuel k ≡ ok (some (next, after))
unfolding find_thread
find_thread-Wakes idle next after _ k zero w enough = absurd (omega (arith, enough))
find_thread-Wakes idle next after _ _ (suc n) (at_once k found) enough = rw found refl
find_thread-Wakes idle next after _ _ (suc n) (idles m k empty woken none_ready runs w) enough =
    rw (none_ready, runs) (find_thread-Wakes idle next after m woken n w (omega (arith, enough)))

-- `Sleep` of the running thread ends its loop in `Run` of the first thread that is ready, where `Idle` makes one ready
-- in fewer calls than there is fuel.
pub sleep-Wakes :
    (idle : Kernel → Run Kernel) (fuel m next : ℕ) (s : ThreadSystem) (after : Kernel)
    → Wakes idle next after m
        (record s.kernel { status = set_status s.kernel.status s.kernel.current_thread blocked })
    → m < fuel
    → sleep idle fuel s.kernel.current_thread s
      ≡ (dispatch next (record s { kernel = after }) >>= λ (s' : ThreadSystem). ok (some s'))
unfolding sleep
sleep-Wakes idle fuel m next s after w enough =
    let self : (s.kernel.current_thread == s.kernel.current_thread) ≡ true = ground arith in
    rw self (rw (find_thread-Wakes idle next after m _ fuel w enough) refl)
