-- ===== src/SynchDisk/Serial/Locking.antt =====
-- The steps of filesys/synchdisk.cc that take and release its lock keep its threads apart.
use pku_os_lab.Common.{
  ℕ, ◌<◌, ◌≡◌, refl, ◌∙◌, sym, ap, subst, Bool, true, false, inl, inr, ◌==◌, if◌then◌else◌,
  Bool-cases, arith, Run, ok,
}
use pku_os_lab.Synch.{acquire, p_pass, removed}
use pku_os_lab.Synch.Buffer
use pku_os_lab.Synch.Buffer.Held.{in_lock, is_asleep, IsHeld, IsHeld-outside, IsHeld-inside}
use pku_os_lab.Synch.Buffer.Handover.{acquire-IsHeld, freed, release-runs, release-IsHeld}
use pku_os_lab.SynchDisk.{disk_sectors}
use pku_os_lab.SynchDisk.Serial.{
  Request, requested_sector, Place, outside, acquiring, asleep, requesting, releasing, System, move,
  try_lock, finish,
}
use pku_os_lab.SynchDisk.Serial.View.{view, views, views-move, views-wake}
use pku_os_lab.SynchDisk.Serial.Phases.{
  Device, device, with_device, Quiet, Phase, Phase-outside, IsSerial, Phase-move, Phase-wake,
  others_out,
}

-- A step that is made.
pub record Makes (r : Run System) : Type 0 where
  pub after : System
  pub is : r ≡ ok after
  pub serial : IsSerial after

module _ (s : System) (h : IsSerial s) (t : ℕ) where
  -- The thread moves on in the lock, and the disk changes.
  pub inside-IsSerial :
      (d : Device) (q : Place)
      → in_lock (view (s.place t)) ≡ true
      → is_asleep (view (s.place t)) ≡ false
      → in_lock (view q) ≡ true
      → Phase d t q
      → IsSerial (with_device d (record s { place = move s.place t q }))
  inside-IsSerial d q in_t up in_q new = record {
    locked =
        subst (λ f. IsHeld f s.lock) (sym (views-move s.place t q))
          (IsHeld-inside (views s.place) s.lock t (view q) h.locked in_t up in_q);
    phase =
        Phase-move d s.place t q
          (λ u other.
            Phase-outside (device s) d u (s.place u) (others_out s t h.locked in_t u other)
              (h.phase u))
          new;
    idle = λ e. absurd (omega (arith, e, (h.locked.alone t in_t).0));
  }

  pub calls-IsSerial :
      (r : Request)
      → s.place t ≡ outside
      → requested_sector r < disk_sectors
      → IsSerial (record s { place = move s.place t (acquiring r) })
  calls-IsSerial r at lt = record {
    locked =
        subst (λ f. IsHeld f s.lock) (sym (views-move s.place t (acquiring r)))
          (IsHeld-outside (views s.place) s.lock t (Buffer.acquiring Buffer.take) h.locked
            (ap (λ p. in_lock (view p)) at) (ap (λ p. is_asleep (view p)) at) refl refl refl);
    phase = Phase-move (device s) s.place t (acquiring r) (λ u other. h.phase u) lt;
    idle = h.idle;
  }

  -- The phase of a thread whose place is known.
  pub Phase-place : (p : Place) → s.place t ≡ p → Phase (device s) t p
  Phase-place p at = subst (λ q. Phase (device s) t q) at (h.phase t)

  view-through :
      (r : Request) (through : Bool)
      → view (if through then requesting r else asleep r)
        ≡ (if through then Buffer.testing Buffer.take else Buffer.asleep Buffer.take)
  view-through r true = refl
  view-through r false = refl

  -- The lock after the test of `P` in `Acquire`.
  taken-Phase :
      (r : Request)
      → requested_sector r < disk_sectors
      → Phase (device s) t (if (acquire t s.lock).1 then requesting r else asleep r)
        × ((acquire t s.lock).0.semaphore.value ≡ 1 → Quiet (device s))
  unfolding acquire p_pass
  taken-Phase r lt = elim (Bool-cases (s.lock.semaphore.value == 0)) [
    | inl held ↦ rw held (lt, h.idle)
    | inr free ↦ rw free (
      (lt, h.idle (ground (arith, free, h.locked.binary))),
      λ e. absurd (omega (arith, e, h.locked.binary)),
    )
  ]

  pub try_lock-Makes : (r : Request) → s.place t ≡ acquiring r → Makes (ok (try_lock t r s))
  unfolding try_lock
  try_lock-Makes r at =
      let lt = Phase-place (acquiring r) at in
      let after_test = taken-Phase r lt in
      record {
        after = try_lock t r s;
        is = refl;
        serial = record {
          locked =
              subst (λ f. IsHeld f (acquire t s.lock).0)
                (sym (
                  views-move s.place t _
                  ∙ ap (Buffer.move (views s.place) t) (view-through r (acquire t s.lock).1)))
                (acquire-IsHeld (views s.place) s.lock t h.locked Buffer.take
                  (ap (λ p. view p) at));
          phase = Phase-move (device s) s.place t _ (λ u other. h.phase u) after_test.0;
          idle = after_test.1;
        };
      }

  left_out :
      in_lock (view (s.place t)) ≡ true
      → (u : ℕ) → in_lock (view (move s.place t outside u)) ≡ false
  left_out in_t u = elim (Bool-cases (t == u)) [
    | inl same ↦ rw same refl
    | inr other ↦ rw other (others_out s t h.locked in_t u other)
  ]

  pub finish-Makes : (r : Request) → s.place t ≡ releasing r → Makes (finish t s)
  unfolding finish
  finish-Makes r at =
      let (served, q) = Phase-place (releasing r) at in
      let in_t = ap (λ p. in_lock (view p)) at in
      let up = ap (λ p. is_asleep (view p)) at in
      let woken = (removed s.lock.semaphore.queue).0 in
      rw (release-runs (views s.place) s.lock t h.locked in_t) (record {
        after = _;
        is = refl;
        serial = record {
          locked =
              subst (λ f. IsHeld f (freed (views s.place) s.lock t h.locked))
                (sym (
                  views-wake (move s.place t outside) woken
                  ∙ ap (λ f. Buffer.wake f woken) (views-move s.place t outside)))
                (release-IsHeld (views s.place) s.lock t h.locked Buffer.outside in_t up refl refl);
          phase =
              Phase-wake (device s) (move s.place t outside) woken
                (Phase-move (device s) s.place t outside (λ u other. h.phase u) tt) (left_out in_t);
          idle = λ e. q;
        };
      })
