-- ===== src/SynchDisk/Serial/Phases.antt =====
-- What holds at each place of a thread in filesys/synchdisk.cc.
use pku_os_lab.Common.{
  ℕ, ◌<◌, ◌≡◌, refl, subst, true, false, ◌⊎◌, inl, inr, List, [], ◌∷◌, Option, none, some, ◌==◌,
  Bool, Bool-cases, arith, clash,
}
use pku_os_lab.Synch.Buffer.Held.{in_lock}
use pku_os_lab.Synch.{Semaphore}
use pku_os_lab.SynchDisk.{Disk, disk_sectors}
use pku_os_lab.SynchDisk.Serial.{
  Request, reading, writing, requested_sector, Place, outside, acquiring, asleep, requesting,
  waiting, blocked, releasing, System, move, resumed, wake,
}
use pku_os_lab.SynchDisk.Serial.View.{view, IsLocked}

-- What the threads and the interrupt share beside the lock.
pub record Device : Type 0 where
  pub done : Semaphore
  pub active : Bool
  pub scheduled : ℕ
  pub contents : Disk (ℕ → ℕ)
  pub buffers : ℕ → ℕ → ℕ

abbrev pub device : System → Device
device s = record {
  done = s.done;
  active = s.active;
  scheduled = s.scheduled;
  contents = s.contents;
  buffers = s.buffers;
}

abbrev pub with_device : Device → System → System
with_device d s = record s {
  done = d.done;
  active = d.active;
  scheduled = d.scheduled;
  contents = d.contents;
  buffers = d.buffers;
}

-- No request is on its way.
pub record Quiet (d : Device) : Type 0 where
  pub active : d.active ≡ false
  pub scheduled : d.scheduled ≡ 0
  pub value : d.done.value ≡ 0
  pub queue : d.done.queue ≡ []

-- The disk has a request, and the threads of `queue` sleep until it is done.
pub record Busy (d : Device) (queue : List ℕ) : Type 0 where
  pub scheduled : d.scheduled ≡ 1
  pub value : d.done.value ≡ 0
  pub queue_is : d.done.queue ≡ queue

-- The request is done, and its thread has not seen it yet.
pub record Finished (d : Device) : Type 0 where
  pub active : d.active ≡ false
  pub scheduled : d.scheduled ≡ 0
  pub value : d.done.value ≡ 1
  pub queue : d.done.queue ≡ []

-- What the request of the thread `t` was to do is done: it has read what the sector holds, or the sector holds what it
-- writes.
abbrev pub Served : Device → ℕ → Request → Type 0
Served d t (reading sector) = d.buffers t ≡ d.contents sector
Served d t (writing sector bytes) = d.contents sector ≡ bytes

-- The semaphore and the interrupt move no data.
pub Served-signal :
    (d : Device) (t : ℕ) (r : Request) (done : Semaphore) (active : Bool) (scheduled : ℕ)
    → Served d t r
    → Served (record d { done = done; active = active; scheduled = scheduled }) t r
Served-signal d t (reading sector) done active scheduled h = h
Served-signal d t (writing sector bytes) done active scheduled h = h

abbrev pub Phase : Device → ℕ → Place → Type 0
Phase d t outside = Unit
Phase d t (acquiring r) = requested_sector r < disk_sectors
Phase d t (asleep r) = requested_sector r < disk_sectors
Phase d t (requesting r) = (requested_sector r < disk_sectors) × Quiet d
Phase d t (waiting r) = Served d t r × (Busy d [] ⊎ Finished d)
Phase d t (blocked r) = Served d t r × Busy d (t ∷ [])
Phase d t (releasing r) = Served d t r × Quiet d

pub record IsSerial (s : System) : Type 0 where
  pub locked : IsLocked s.place s.lock
  pub phase : (t : ℕ) → Phase (device s) t (s.place t)
  pub idle : s.lock.semaphore.value ≡ 1 → Quiet (device s)

-- A thread that is not in the lock does not look at the disk.
pub Phase-outside :
    (d d' : Device) (t : ℕ) (p : Place) → in_lock (view p) ≡ false → Phase d t p → Phase d' t p
Phase-outside d d' t outside out h = tt
Phase-outside d d' t (acquiring r) out h = h
Phase-outside d d' t (asleep r) out h = h
Phase-outside d d' t (requesting r) out h = clash refl out
Phase-outside d d' t (waiting r) out h = clash refl out
Phase-outside d d' t (blocked r) out h = clash refl out
Phase-outside d d' t (releasing r) out h = clash refl out

Phase-resumed :
    (d : Device) (t : ℕ) (p : Place)
    → in_lock (view p) ≡ false
    → Phase d t p
    → Phase d t (resumed p)
Phase-resumed d t outside out h = tt
Phase-resumed d t (acquiring r) out h = h
Phase-resumed d t (asleep r) out h = h
Phase-resumed d t (requesting r) out h = clash refl out
Phase-resumed d t (waiting r) out h = clash refl out
Phase-resumed d t (blocked r) out h = clash refl out
Phase-resumed d t (releasing r) out h = clash refl out

-- The thread `t` moves, and the others stay in their phases.
pub Phase-move :
    (d : Device) (place : ℕ → Place) (t : ℕ) (p : Place)
    → ((u : ℕ) → (t == u) ≡ false → Phase d u (place u))
    → Phase d t p
    → (u : ℕ) → Phase d u (move place t p u)
Phase-move d place t p others new u = elim (Bool-cases (t == u)) [
  | inl same ↦ let e : t ≡ u = ground (arith, same) in rw same (subst (λ w. Phase d w p) e new)
  | inr other ↦ rw other (others u other)
]

-- A thread is woken that was not in the lock.
pub Phase-wake :
    (d : Device) (place : ℕ → Place) (woken : Option ℕ)
    → ((u : ℕ) → Phase d u (place u))
    → ((u : ℕ) → in_lock (view (place u)) ≡ false)
    → (u : ℕ) → Phase d u (wake place woken u)
Phase-wake d place none phase out u = phase u
Phase-wake d place (some t) phase out u =
    Phase-move d place t (resumed (place t)) (λ w other. phase w)
      (Phase-resumed d t (place t) (out t) (phase t)) u

-- Where one thread is in the lock, no other is.
pub others_out :
    (s : System) (t : ℕ)
    → IsLocked s.place s.lock
    → in_lock (view (s.place t)) ≡ true
    → (u : ℕ) → (t == u) ≡ false
    → in_lock (view (s.place u)) ≡ false
others_out s t h in_t u other = elim (Bool-cases (in_lock (view (s.place u)))) [
  | inr out ↦ out
  | inl in_u ↦
      let held_t = (h.alone t in_t).1 in
      let held_u = (h.alone u in_u).1 in absurd (ground (arith, held_t, held_u, other))
]

-- Where the lock is free, no thread is in it.
pub all_out :
    (s : System)
    → IsLocked s.place s.lock
    → (s.lock.semaphore.value == 0) ≡ false
    → (u : ℕ) → in_lock (view (s.place u)) ≡ false
all_out s h free u = elim (Bool-cases (in_lock (view (s.place u)))) [
  | inr out ↦ out
  | inl in_u ↦ absurd (ground (arith, (h.alone u in_u).0, free))
]
