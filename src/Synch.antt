-- ===== src/Synch.antt =====
-- threads/synch.h and synch.cc: semaphores, locks and condition variables. A thread is a number. Each
-- operation runs with interrupts off, and so as one step up to the point where its thread sleeps; what
-- it does to the ready list is given as the thread that it wakes. The queues are the sequences that the
-- lists of threads/list.cc stand for.
pub mod Buffer
use pku_os_lab.Common.{
  ℕ, ◌+◌, ◌-◌, Bool, true, false, List, [], ◌∷◌, ◌++◌, Option, none, some, ◌==◌, if◌then◌else◌, Run,
  ok, ◌>>=◌, ◌>>◌, assert,
}

pub record Semaphore : Type 0 where
  pub value : ℕ
  pub queue : List ℕ

-- One pass of the loop of `P`: the thread is through, or it is in the queue and goes to sleep, and tests
-- again when it is woken.
unfoldable pub p_pass : ℕ → Semaphore → Semaphore × Bool
p_pass t s =
    if s.value == 0
    then (record s { queue = s.queue ++ (t ∷ []) }, false)
    else (record s { value = s.value - 1 }, true)

abbrev pub removed : List ℕ → Option ℕ × List ℕ
removed [] = (none, [])
removed (t ∷ ts) = (some t, ts)

-- `V`, and the thread that it wakes.
unfoldable pub v : Semaphore → Semaphore × Option ℕ
v s = let (woken, queue) = removed s.queue in (record { value = s.value + 1; queue = queue }, woken)

-- The constructor of `Lock` leaves `holderThread` as it is.
pub record Lock : Type 0 where
  pub holder : Option ℕ
  pub semaphore : Semaphore

unfoldable pub new_lock : Option ℕ → Lock
new_lock garbage = record { holder = garbage; semaphore = record { value = 1; queue = [] } }

abbrev pub is_held_by : ℕ → Option ℕ → Bool
is_held_by t none = false
is_held_by t (some u) = t == u

-- `isLocked`
abbrev pub is_some : Option ℕ → Bool
is_some none = false
is_some (some t) = true

-- `Acquire`, once through the loop of `P`.
unfoldable pub acquire : ℕ → Lock → Lock × Bool
unfolding p_pass
acquire t l =
    let (s, through) = p_pass t l.semaphore in
    if through
    then (record { holder = some t; semaphore = s }, true)
    else (record l { semaphore = s }, false)

unfoldable pub release : ℕ → Lock → Run (Lock × Option ℕ)
unfolding v
release t l =
    let (s, woken) = v l.semaphore in
    assert (is_held_by t l.holder) >> ok (record { holder = none; semaphore = s }, woken)

-- `Wait` up to its `Sleep`, with the queue of the condition.
unfoldable pub wait : ℕ → Lock → List ℕ → Run (Lock × List ℕ × Option ℕ)
unfolding release
wait t l queue = do
  assert (is_held_by t l.holder) >> assert (is_some l.holder)
  (l', woken) ← release t l
  ok (l', queue ++ (t ∷ []), woken)

-- `Signal`, and the thread that it wakes.
unfoldable pub signal : ℕ → Lock → List ℕ → Run (List ℕ × Option ℕ)
signal t l queue =
    let (woken, queue') = removed queue in assert (is_held_by t l.holder) >> ok (queue', woken)

-- `Broadcast`, and the threads that it wakes, in this order.
unfoldable pub broadcast : ℕ → Lock → List ℕ → Run (List ℕ × List ℕ)
broadcast t l queue = assert (is_held_by t l.holder) >> ok ([], queue)
