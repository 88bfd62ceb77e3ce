-- ===== src/Synch/Buffer.antt =====
-- threads/synch.cc, the bounded buffer with a lock and two conditions, as it is built without
-- `USE_SEMAPHORE`: threads that put and take, in any order of their steps. A step ends where the lock
-- lets other threads in or another thread may run.
pub mod Queues
pub mod Held
pub mod Handover
pub mod Kinds
pub mod Waking
pub mod Steps
pub mod Safe
mod Tests
use pku_os_lab.Common.{
  ℕ, ◌+◌, ◌-◌, ◌≡◌, Bool, true, false, not, List, [], ◌∷◌, Option, none, some, ◌==◌, if◌then◌else◌,
  Run, ok, aborted, ◌>>=◌, set,
}
use pku_os_lab.Synch.{Lock, new_lock, acquire, release, wait, signal}

-- `BUFFER_SIZE`
abbrev pub buffer_size : ℕ
buffer_size = 10

-- `putItemInBuffer(p)` or `removeItemFromBuffer()`
pub data Call : Type 0 where
  put : ℕ → Call
  take : Call

-- Where a thread is: at the test of `P` in `Acquire`, asleep there, at the test of the count, in the
-- queue of a condition, before `Signal`, before `Release`.
pub data Place : Type 0 where
  outside : Place
  acquiring asleep testing waiting signalling releasing : Call → Place

pub record System : Type 0 where
  pub lock : Lock
  pub empty : List ℕ
  pub full : List ℕ
  pub count : ℕ
  pub buffer : List ℕ
  pub place : ℕ → Place

abbrev pub move : (ℕ → Place) → ℕ → Place → ℕ → Place
move place t p u = if t == u then p else place u

-- `ReadyToRun`: a thread that slept in `P` or in `Wait` goes on at the test of `P`.
abbrev pub resumed : Place → Place
resumed (asleep c) = acquiring c
resumed (waiting c) = acquiring c
resumed p = p

abbrev pub wake : (ℕ → Place) → Option ℕ → ℕ → Place
wake place none = place
wake place (some t) = move place t (resumed (place t))

-- The loop of `Acquire`.
unfoldable pub try_acquire : ℕ → Call → System → System
unfolding acquire
try_acquire t c s =
    let (l, through) = acquire t s.lock in
    record s { lock = l; place = move s.place t (if through then testing c else asleep c) }

-- `empty->Wait(lock)` or `full->Wait(lock)`
unfoldable pub wait_for : ℕ → Call → System → Run System
unfolding wait
wait_for t (put p) s = do
  (l, queue, woken) ← wait t s.lock s.empty
  ok (record s { lock = l; empty = queue; place = wake (move s.place t (waiting (put p))) woken })
wait_for t take s = do
  (l, queue, woken) ← wait t s.lock s.full
  ok (record s { lock = l; full = queue; place = wake (move s.place t (waiting take)) woken })

-- `while (...) ...->Wait(lock);` and the change of the buffer
unfoldable pub test_count : ℕ → Call → System → Run System
unfolding wait_for
test_count t (put p) s =
    if s.count == buffer_size
    then wait_for t (put p) s
    else ok (record s {
      count = s.count + 1;
      buffer = set s.buffer s.count p;
      place = move s.place t (signalling (put p));
    })
test_count t take s =
    if s.count == 0
    then wait_for t take s
    else ok (record s { count = s.count - 1; place = move s.place t (signalling take) })

-- `full->Signal(lock)` or `empty->Signal(lock)`
unfoldable pub signal_other : ℕ → Call → System → Run System
unfolding signal
signal_other t (put p) s = do
  (queue, woken) ← signal t s.lock s.full
  ok (record s { full = queue; place = wake (move s.place t (releasing (put p))) woken })
signal_other t take s = do
  (queue, woken) ← signal t s.lock s.empty
  ok (record s { empty = queue; place = wake (move s.place t (releasing take)) woken })

unfoldable pub leave : ℕ → System → Run System
unfolding release
leave t s = do
  (l, woken) ← release t s.lock
  ok (record s { lock = l; place = wake (move s.place t outside) woken })

-- The next step of a thread that runs.
abbrev pub run_at : Place → ℕ → System → Run System
run_at outside t s = ok s
run_at (acquiring c) t s = ok (try_acquire t c s)
run_at (asleep c) t s = ok s
run_at (testing c) t s = test_count t c s
run_at (waiting c) t s = ok s
run_at (signalling c) t s = signal_other t c s
run_at (releasing c) t s = leave t s

abbrev pub run_thread : ℕ → System → Run System
run_thread t s = run_at (s.place t) t s

-- The constructor of `Buffer`, with what the fresh memory holds.
unfoldable pub new_buffer : Option ℕ → List ℕ → System
unfolding new_lock
new_buffer garbage memory = record {
  lock = new_lock garbage;
  empty = [];
  full = [];
  count = 0;
  buffer = memory;
  place = λ t. outside;
}

-- A thread calls an operation, or any thread runs.
pub data Step : System → System → Type 0 where
  calls :
      (t : ℕ) (c : Call) (s : System)
      → s.place t ≡ outside
      → Step s (record s { place = move s.place t (acquiring c) })
  runs : (t : ℕ) (s s' : System) → run_thread t s ≡ ok s' → Step s s'

pub data Reach (s : System) : System → Type 0 where
  here : Reach s s
  next : {u w : System} → Reach s u → Step u w → Reach s w
