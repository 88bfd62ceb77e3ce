-- ===== src/SynchDisk/Serial/Safe.antt =====
-- `ReadSector` and `WriteSector` of filesys/synchdisk.cc in every order of steps.
use pku_os_lab.Common.{
  ℕ, ◌+◌, ◌≡◌, refl, ◌∙◌, sym, ap, subst, true, false, ◌||◌, inl, inr, [], ◌∷◌, Option, Run, ok,
  arith, clash,
}
use pku_os_lab.Synch.Buffer.Held.{in_lock, is_asleep, is_acquiring}
use pku_os_lab.Synch.Buffer.Safe.{guarded}
use pku_os_lab.Synch.{new_lock}
use pku_os_lab.SynchDisk.{Disk}
use pku_os_lab.SynchDisk.Serial.{
  Place, outside, acquiring, asleep, requesting, waiting, blocked, releasing, System, run_thread,
  new_synch_disk, Step, calls, runs, interrupts, Reach, here, next,
}
use pku_os_lab.SynchDisk.Serial.View.{view, views}
use pku_os_lab.SynchDisk.Serial.Phases.{device, Served, IsSerial}
use pku_os_lab.SynchDisk.Serial.Steps.{run_thread-Makes}
use pku_os_lab.SynchDisk.Serial.Locking.{Makes, calls-IsSerial, Phase-place}
use pku_os_lab.SynchDisk.Serial.Interrupt.{disk_interrupt-IsSerial}

new_synch_disk-IsSerial :
    (garbage : Option ℕ) (contents : Disk (ℕ → ℕ)) (buffers : ℕ → ℕ → ℕ)
    → IsSerial (new_synch_disk garbage contents buffers)
unfolding new_synch_disk new_lock
new_synch_disk-IsSerial garbage contents buffers = record {
  locked = record {
    binary = omega arith;
    taken = λ e. absurd (omega (arith, e));
    alone = λ t e. cc;
    sleeping = record { all = tt; distinct = tt; listed = λ t e. cc };
    awake = λ e more. cc;
  };
  phase = λ t. tt;
  idle = λ e. record { active = refl; scheduled = refl; value = refl; queue = refl };
}

same_result : (r : Run System) (s' : System) → Makes r → r ≡ ok s' → IsSerial s'
same_result r s' m e = subst IsSerial (ok_injective m.after s' (sym m.is ∙ e)) m.serial
  where
    ok_injective : (a b : System) → ok a ≡ ok b → a ≡ b
    ok_injective a b e = cc

Step-IsSerial : {s s' : System} → Step s s' → IsSerial s → IsSerial s'
Step-IsSerial (calls t r s at lt) h = calls-IsSerial s h t r at lt
Step-IsSerial (runs t s s' e) h = same_result _ s' (run_thread-Makes s h t) e
Step-IsSerial (interrupts n s pending) h = disk_interrupt-IsSerial s n h pending

-- In every order of calls for sectors of the disk, of steps of any threads and of interrupts, from a new disk: at most
-- one thread is in the lock and it is the recorded holder; the disk is not active and no interrupt is pending unless
-- that thread waits for its request, and then one is pending or the semaphore is 1; and the request of a thread that
-- waits or is about to release the lock has read what the sector holds, or the sector holds what it wrote.
Reach-IsSerial :
    (garbage : Option ℕ) (contents : Disk (ℕ → ℕ)) (buffers : ℕ → ℕ → ℕ) (s : System)
    → Reach (new_synch_disk garbage contents buffers) s
    → IsSerial s
Reach-IsSerial garbage contents buffers _ here = new_synch_disk-IsSerial garbage contents buffers
Reach-IsSerial garbage contents buffers s (next r step) =
    Step-IsSerial step (Reach-IsSerial garbage contents buffers _ r)

-- What a thread may rely on where it is.
abbrev pub Answer : System → ℕ → Place → Type 0
Answer s t outside = Unit
Answer s t (acquiring r) = Unit
Answer s t (asleep r) =
    (u : ℕ) × ((in_lock (view (s.place u)) || is_acquiring (view (s.place u))) ≡ true)
Answer s t (requesting r) = s.active ≡ false
Answer s t (waiting r) = s.scheduled + s.done.value ≡ 1
Answer s t (blocked r) = (s.scheduled ≡ 1) × (s.done.queue ≡ t ∷ [])
Answer s t (releasing r) = Served (device s) t r

IsSerial-Answer : (s : System) (t : ℕ) (p : Place) → IsSerial s → s.place t ≡ p → Answer s t p
IsSerial-Answer s t outside h at = tt
IsSerial-Answer s t (acquiring r) h at = tt
IsSerial-Answer s t (asleep r) h at = elim (guarded (views s.place) s.lock t h.locked) [
  | inl up ↦ clash (ap (λ q. is_asleep (view q)) at) up
  | inr awake ↦ awake
]
IsSerial-Answer s t (requesting r) h at = (Phase-place s h t (requesting r) at).1.active
IsSerial-Answer s t (waiting r) h at = elim (Phase-place s h t (waiting r) at).1 [
  | inl busy ↦ omega (arith, busy.scheduled, busy.value)
  | inr over ↦ omega (arith, over.scheduled, over.value)
]
IsSerial-Answer s t (blocked r) h at =
    let busy = (Phase-place s h t (blocked r) at).1 in (busy.scheduled, busy.queue_is)
IsSerial-Answer s t (releasing r) h at = (Phase-place s h t (releasing r) at).0

-- In every reachable state the next step of any thread is made: neither the `ASSERT(!active)` of the disk nor that of
-- `Release` fails. A thread that sleeps until its request is done is the one in the queue of the semaphore, and an
-- interrupt is pending; one that is about to test the semaphore finds it 1 or an interrupt pending; while one sleeps
-- for the lock, some thread is in the lock or about to test it; and one that is about to release the lock and return
-- has read what its sector holds, or its sector holds what it wrote.
pub run_thread_served :
    (garbage : Option ℕ) (contents : Disk (ℕ → ℕ)) (buffers : ℕ → ℕ → ℕ) (s : System)
    → Reach (new_synch_disk garbage contents buffers) s
    → (t : ℕ) → ((s' : System) × (run_thread t s ≡ ok s')) × Answer s t (s.place t)
run_thread_served garbage contents buffers s r t =
    let h = Reach-IsSerial garbage contents buffers s r in
    let m = run_thread-Makes s h t in ((m.after, m.is), IsSerial-Answer s t (s.place t) h refl)
