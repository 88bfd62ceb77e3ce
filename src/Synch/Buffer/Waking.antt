-- ===== src/Synch/Buffer/Waking.antt =====
-- Threads of the bounded buffer of threads/synch.cc that stay in the lock, or leave it and wake others.
use pku_os_lab.Common.{ℕ, ◌≤◌, ◌≡◌, refl, true, false, List, [], ◌∷◌, ◌++◌, ok, arith}
use pku_os_lab.Synch.{wait, signal, removed, is_held_by, is_some}
use pku_os_lab.Synch.Buffer.{buffer_size, Place, System, move, wake}
use pku_os_lab.Synch.Buffer.Queues.{Queued, Queued-move, Queued-wake}
use pku_os_lab.Synch.Buffer.Held.{in_lock, is_asleep, IsHeld-inside}
use pku_os_lab.Synch.Buffer.Handover.{freed}
use pku_os_lab.Synch.Buffer.Kinds.{
  awaits_room, awaits_item, IsSafe, asleep-room, asleep-item, resumed-awaits_room,
  resumed-awaits_item, in_lock-awaits,
}

module _ (s : System) (h : IsSafe s) (t : ℕ) where
  -- A thread in the lock goes on in it, with another count.
  pub inside-IsSafe :
      (p : Place) (count : ℕ) (buffer : List ℕ)
      → in_lock (s.place t) ≡ true
      → is_asleep (s.place t) ≡ false
      → awaits_room (s.place t) ≡ false
      → awaits_item (s.place t) ≡ false
      → in_lock p ≡ true
      → count ≤ buffer_size
      → IsSafe (record s { count = count; buffer = buffer; place = move s.place t p })
  inside-IsSafe p count buffer in_t up no_room no_item in_p small = record {
    held = IsHeld-inside s.place s.lock t p h.held in_t up in_p;
    room = Queued-move s.place awaits_room t p s.empty h.room no_room (in_lock-awaits p in_p).0;
    item = Queued-move s.place awaits_item t p s.full h.item no_item (in_lock-awaits p in_p).1;
    fits = small;
  }

  -- The queues after a thread at a place in the lock has moved and the first sleeper of the lock wakes.
  pub woken-room :
      (p : Place) (queue : List ℕ)
      → is_asleep (s.place t) ≡ false
      → is_asleep p ≡ false
      → Queued (move s.place t p) awaits_room queue
      → Queued (wake (move s.place t p) (removed s.lock.semaphore.queue).0) awaits_room queue
  woken-room p queue up calm q =
      Queued-wake (move s.place t p) awaits_room is_asleep queue s.lock.semaphore.queue q
        (Queued-move s.place is_asleep t p s.lock.semaphore.queue h.held.sleeping up calm).all
        asleep-room resumed-awaits_room

  pub woken-item :
      (p : Place) (queue : List ℕ)
      → is_asleep (s.place t) ≡ false
      → is_asleep p ≡ false
      → Queued (move s.place t p) awaits_item queue
      → Queued (wake (move s.place t p) (removed s.lock.semaphore.queue).0) awaits_item queue
  woken-item p queue up calm q =
      Queued-wake (move s.place t p) awaits_item is_asleep queue s.lock.semaphore.queue q
        (Queued-move s.place is_asleep t p s.lock.semaphore.queue h.held.sleeping up calm).all
        asleep-item resumed-awaits_item

  pub wait-runs :
      (queue : List ℕ)
      → in_lock (s.place t) ≡ true
      → wait t s.lock queue
        ≡ ok (freed s.place s.lock t h.held, queue ++ (t ∷ []), (removed s.lock.semaphore.queue).0)
  unfolding wait
  wait-runs queue in_t =
      let is : is_held_by t s.lock.holder ≡ true = rw (h.held.alone t in_t).1 (ground arith) in
      let some_one : is_some s.lock.holder ≡ true = rw (h.held.alone t in_t).1 refl in
      rw (is, some_one) refl

  pub signal-runs :
      (queue : List ℕ)
      → in_lock (s.place t) ≡ true
      → signal t s.lock queue ≡ ok ((removed queue).1, (removed queue).0)
  unfolding signal
  signal-runs queue in_t =
      let is : is_held_by t s.lock.holder ≡ true = rw (h.held.alone t in_t).1 (ground arith) in
      rw is refl
