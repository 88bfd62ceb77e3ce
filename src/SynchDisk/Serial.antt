-- ===== src/SynchDisk/Serial.antt =====
-- `ReadSector`, `WriteSector` and `RequestDone` of filesys/synchdisk.cc, as threads call them in any order of their
-- steps, with the requests and the interrupt of machine/disk.cc, whose time is left out. A step ends where another
-- thread or the interrupt may run.
pub mod View
pub mod Phases
pub mod Locking
pub mod Steps
pub mod Interrupt
pub mod Safe
pub mod Alone
mod Tests
use pku_os_lab.Common.{
  ℕ, zero, suc, ◌+◌, ◌-◌, ◌<◌, ◌≡◌, Bool, true, false, not, List, [], Option, none, some, ◌==◌,
  if◌then◌else◌, pos, Run, ok, ◌>>=◌, ◌>>◌, assert,
}
use pku_os_lab.Synch.{Semaphore, Lock, new_lock, acquire, release, p_pass, v}
use pku_os_lab.SynchDisk.{Disk, disk_sectors, read_sector, write_sector}

-- `ReadSector(sector, data)`, or `WriteSector(sector, data)` with what `data` holds.
pub data Request : Type 0 where
  reading : ℕ → Request
  writing : ℕ → (ℕ → ℕ) → Request

abbrev pub requested_sector : Request → ℕ
requested_sector (reading sector) = sector
requested_sector (writing sector bytes) = sector

-- Where a thread is: at the test of `P` in `lock->Acquire`, asleep there, before the request to the disk, at the test of
-- `semaphore->P`, asleep there, before `lock->Release`.
pub data Place : Type 0 where
  outside : Place
  acquiring asleep requesting waiting blocked releasing : Request → Place

-- `done` is the field `semaphore`, `active` that of the disk, `scheduled` the number of pending interrupts of the disk,
-- and `buffers t` the array `data` that the thread `t` reads into.
pub record System : Type 0 where
  pub lock : Lock
  pub done : Semaphore
  pub active : Bool
  pub scheduled : ℕ
  pub contents : Disk (ℕ → ℕ)
  pub buffers : ℕ → ℕ → ℕ
  pub place : ℕ → Place

abbrev pub move : (ℕ → Place) → ℕ → Place → ℕ → Place
move place t p u = if t == u then p else place u

-- `ReadyToRun`: a thread that slept goes on at the test of its `P`.
abbrev pub resumed : Place → Place
resumed outside = outside
resumed (acquiring r) = acquiring r
resumed (asleep r) = acquiring r
resumed (requesting r) = requesting r
resumed (waiting r) = waiting r
resumed (blocked r) = waiting r
resumed (releasing r) = releasing r

abbrev pub wake : (ℕ → Place) → Option ℕ → ℕ → Place
wake place none = place
wake place (some t) = move place t (resumed (place t))

-- `lock->Acquire()`
unfoldable pub try_lock : ℕ → Request → System → System
try_lock t r s =
    let (l, through) = acquire t s.lock in
    record s { lock = l; place = move s.place t (if through then requesting r else asleep r) }

-- `disk->ReadRequest(sector, data)` or `disk->WriteRequest(sector, data)`
unfoldable pub send_request : ℕ → Request → System → Run System
send_request t (reading sector) s = do
  assert (not s.active)
  bytes ← read_sector (pos sector) s.contents
  ok (record s {
    active = true;
    scheduled = s.scheduled + 1;
    buffers = λ u. if t == u then bytes else s.buffers u;
    place = move s.place t (waiting (reading sector));
  })
send_request t (writing sector bytes) s = do
  assert (not s.active)
  contents ← write_sector (pos sector) bytes s.contents
  ok (record s {
    active = true;
    scheduled = s.scheduled + 1;
    contents = contents;
    place = move s.place t (waiting (writing sector bytes));
  })

-- `semaphore->P()`
unfoldable pub wait_done : ℕ → Request → System → System
wait_done t r s =
    let (done, through) = p_pass t s.done in
    record s { done = done; place = move s.place t (if through then releasing r else blocked r) }

-- `lock->Release()`
unfoldable pub finish : ℕ → System → Run System
finish t s = do
  (l, woken) ← release t s.lock
  ok (record s { lock = l; place = wake (move s.place t outside) woken })

-- The next step of a thread that runs.
abbrev pub run_at : Place → ℕ → System → Run System
run_at outside t s = ok s
run_at (acquiring r) t s = ok (try_lock t r s)
run_at (asleep r) t s = ok s
run_at (requesting r) t s = send_request t r s
run_at (waiting r) t s = ok (wait_done t r s)
run_at (blocked r) t s = ok s
run_at (releasing r) t s = finish t s

abbrev pub run_thread : ℕ → System → Run System
run_thread t s = run_at (s.place t) t s

-- `Disk::HandleInterrupt`, which calls `RequestDone`, `semaphore->V()`.
unfoldable pub disk_interrupt : System → System
disk_interrupt s =
    let (done, woken) = v s.done in
    record s {
      done = done;
      active = false;
      scheduled = s.scheduled - 1;
      place = wake s.place woken;
    }

-- The constructors of `SynchDisk` and `Disk`, with what the fresh memory and the disk hold.
unfoldable pub new_synch_disk : Option ℕ → Disk (ℕ → ℕ) → (ℕ → ℕ → ℕ) → System
new_synch_disk garbage contents buffers = record {
  lock = new_lock garbage;
  done = record { value = 0; queue = [] };
  active = false;
  scheduled = 0;
  contents = contents;
  buffers = buffers;
  place = λ t. outside;
}

-- A thread calls an operation for a sector of the disk, any thread runs, or a pending interrupt occurs.
pub data Step : System → System → Type 0 where
  calls :
      (t : ℕ) (r : Request) (s : System)
      → s.place t ≡ outside
      → requested_sector r < disk_sectors
      → Step s (record s { place = move s.place t (acquiring r) })
  runs : (t : ℕ) (s s' : System) → run_thread t s ≡ ok s' → Step s s'
  interrupts : (n : ℕ) (s : System) → s.scheduled ≡ suc n → Step s (disk_interrupt s)

pub data Reach (s : System) : System → Type 0 where
  here : Reach s s
  next : {u w : System} → Reach s u → Step u w → Reach s w
