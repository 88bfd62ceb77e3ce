-- ===== src/SynchDisk/Serial/Interrupt.antt =====
-- The interrupt of machine/disk.cc, with the `RequestDone` of filesys/synchdisk.cc.
use pku_os_lab.Common.{
  ℕ, suc, ◌+◌, ◌-◌, ◌≡◌, refl, sym, ap, subst, true, false, inl, inr, List, [], ◌∷◌, ◌==◌,
  Bool-cases, arith, clash,
}
use pku_os_lab.Synch.{v, removed}
use pku_os_lab.Synch.Buffer.Held.{in_lock, is_asleep}
use pku_os_lab.SynchDisk.Serial.{
  Request, Place, outside, acquiring, asleep, requesting, waiting, blocked, releasing, System,
  disk_interrupt,
}
use pku_os_lab.SynchDisk.Serial.View.{view}
use pku_os_lab.SynchDisk.Serial.Phases.{
  Device, device, with_device, Busy, Finished, Served-signal, Phase, Phase-outside, IsSerial,
  others_out,
}
use pku_os_lab.SynchDisk.Serial.Locking.{inside-IsSerial, Phase-place}

-- The disk after the interrupt, where the queue of the semaphore was `queue`.
abbrev served_disk : System → List ℕ → Device
served_disk s queue = record (device s) {
  done = record { value = s.done.value + 1; queue = (removed queue).1 };
  active = false;
  scheduled = s.scheduled - 1;
}

module _ (s : System) (h : IsSerial s) (t : ℕ) where
  -- The disk changes, and the thread in the lock stays where it is.
  same_place-IsSerial :
      (d : Device)
      → in_lock (view (s.place t)) ≡ true
      → Phase d t (s.place t)
      → IsSerial (with_device d s)
  same_place-IsSerial d in_t new = record {
    locked = h.locked;
    phase = at;
    idle = λ e. absurd (omega (arith, e, (h.locked.alone t in_t).0));
  }
    where
      at : (u : ℕ) → Phase d u (s.place u)
      at u = elim (Bool-cases (t == u)) [
        | inl same ↦
            let e : t ≡ u = ground (arith, same) in subst (λ w. Phase d w (s.place w)) e new
        | inr other ↦
            Phase-outside (device s) d u (s.place u) (others_out s t h.locked in_t u other)
              (h.phase u)
      ]

  Busy-Finished :
      (queue : List ℕ)
      → Busy (device s) queue
      → (removed queue).1 ≡ []
      → Finished (served_disk s queue)
  Busy-Finished queue busy gone = record {
    active = refl;
    scheduled = omega (arith, busy.scheduled);
    value = omega (arith, busy.value);
    queue = gone;
  }

  disk_interrupt-waiting :
      (r : Request) → s.place t ≡ waiting r → Busy (device s) [] → IsSerial (disk_interrupt s)
  unfolding disk_interrupt v
  disk_interrupt-waiting r at busy =
      let (served, state) = Phase-place s h t (waiting r) at in
      let d = served_disk s [] in
      let new : Phase d t (waiting r) = (
        Served-signal (device s) t r d.done d.active d.scheduled served,
        inr (Busy-Finished [] busy refl),
      ) in
      rw busy.queue_is (
        same_place-IsSerial d (ap (λ p. in_lock (view p)) at)
          (subst (λ p. Phase d t p) (sym at) new))

  disk_interrupt-blocked : (r : Request) → s.place t ≡ blocked r → IsSerial (disk_interrupt s)
  unfolding disk_interrupt v
  disk_interrupt-blocked r at =
      let (served, busy) = Phase-place s h t (blocked r) at in
      let d = served_disk s (t ∷ []) in
      let new : Phase d t (waiting r) = (
        Served-signal (device s) t r d.done d.active d.scheduled served,
        inr (Busy-Finished (t ∷ []) busy refl),
      ) in
      rw (busy.queue_is, at)
        (inside-IsSerial s h t d (waiting r) (ap (λ p. in_lock (view p)) at)
          (ap (λ p. is_asleep (view p)) at) refl new)

  disk_interrupt-holder :
      (n : ℕ) (p : Place)
      → s.scheduled ≡ suc n
      → s.place t ≡ p
      → in_lock (view p) ≡ true
      → IsSerial (disk_interrupt s)
  disk_interrupt-holder n outside pending at in_p = clash in_p refl
  disk_interrupt-holder n (acquiring r) pending at in_p = clash in_p refl
  disk_interrupt-holder n (asleep r) pending at in_p = clash in_p refl
  disk_interrupt-holder n (requesting r) pending at in_p =
      let (lt, q) = Phase-place s h t (requesting r) at in
      absurd (omega (arith, pending, q.scheduled))
  disk_interrupt-holder n (waiting r) pending at in_p =
      let (served, state) = Phase-place s h t (waiting r) at in
      elim state [
        | inl busy ↦ disk_interrupt-waiting r at busy
        | inr over ↦ absurd (omega (arith, pending, over.scheduled))
      ]
  disk_interrupt-holder n (blocked r) pending at in_p = disk_interrupt-blocked r at
  disk_interrupt-holder n (releasing r) pending at in_p =
      let (served, q) = Phase-place s h t (releasing r) at in
      absurd (omega (arith, pending, q.scheduled))

-- An interrupt is pending only while a thread in the lock waits for it.
pub disk_interrupt-IsSerial :
    (s : System) (n : ℕ) → IsSerial s → s.scheduled ≡ suc n → IsSerial (disk_interrupt s)
disk_interrupt-IsSerial s n h pending = elim (Bool-cases (s.lock.semaphore.value == 0)) [
  | inl held ↦
      let (t, in_t) = h.locked.taken (ground (arith, held)) in
      disk_interrupt-holder s h t n (s.place t) pending refl in_t
  | inr free ↦
      let q = h.idle (ground (arith, free, h.locked.binary)) in
      absurd (omega (arith, pending, q.scheduled))
]
