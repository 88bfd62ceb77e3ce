-- ===== src/SynchDisk/Serial/Steps.antt =====
-- The steps of filesys/synchdisk.cc keep its threads apart.
use pku_os_lab.Common.{
  ℕ, ◌+◌, ◌-◌, ◌≡◌, refl, ap, true, false, inl, inr, [], ◌∷◌, ◌++◌, ◌==◌, if◌then◌else◌, arith, ok,
}
use pku_os_lab.Synch.{p_pass}
use pku_os_lab.Synch.Buffer.Held.{in_lock, is_asleep}
use pku_os_lab.SynchDisk.{read_sector-ok, write_sector-ok, put, put_self}
use pku_os_lab.SynchDisk.Serial.{
  Request, reading, writing, Place, outside, acquiring, asleep, requesting, waiting, blocked,
  releasing, System, send_request, wait_done, run_at, run_thread,
}
use pku_os_lab.SynchDisk.Serial.View.{view}
use pku_os_lab.SynchDisk.Serial.Phases.{device, Busy, Served-signal, IsSerial}
use pku_os_lab.SynchDisk.Serial.Locking.{
  Makes, inside-IsSerial, Phase-place, try_lock-Makes, finish-Makes,
}

module _ (s : System) (h : IsSerial s) (t : ℕ) where
  if_self : (x y : ℕ → ℕ) → (if t == t then x else y) ≡ x
  if_self x y = let same : (t == t) ≡ true = ground arith in rw same refl

  send_request-Makes : (r : Request) → s.place t ≡ requesting r → Makes (send_request t r s)
  unfolding send_request
  send_request-Makes (reading sector) at =
      let (lt, q) = Phase-place s h t (requesting (reading sector)) at in
      rw (q.active, read_sector-ok sector s.contents lt)
        (record {
          after = _;
          is = refl;
          serial =
              inside-IsSerial s h t
                (record {
                  done = s.done;
                  active = true;
                  scheduled = s.scheduled + 1;
                  contents = s.contents;
                  buffers = λ u. if t == u then s.contents sector else s.buffers u;
                })
                (waiting (reading sector)) (ap (λ p. in_lock (view p)) at)
                (ap (λ p. is_asleep (view p)) at) refl
                (
                  if_self (s.contents sector) (s.buffers t),
                  inl (record {
                    scheduled = omega (arith, q.scheduled);
                    value = q.value;
                    queue_is = q.queue;
                  }),
                );
        })
  send_request-Makes (writing sector bytes) at =
      let (lt, q) = Phase-place s h t (requesting (writing sector bytes)) at in
      rw (q.active, write_sector-ok sector bytes s.contents lt)
        (record {
          after = _;
          is = refl;
          serial =
              inside-IsSerial s h t
                (record {
                  done = s.done;
                  active = true;
                  scheduled = s.scheduled + 1;
                  contents = put s.contents sector bytes;
                  buffers = s.buffers;
                })
                (waiting (writing sector bytes)) (ap (λ p. in_lock (view p)) at)
                (ap (λ p. is_asleep (view p)) at) refl
                (
                  put_self s.contents sector bytes,
                  inl (record {
                    scheduled = omega (arith, q.scheduled);
                    value = q.value;
                    queue_is = q.queue;
                  }),
                );
        })

  wait_done-Makes : (r : Request) → s.place t ≡ waiting r → Makes (ok (wait_done t r s))
  unfolding wait_done p_pass
  wait_done-Makes r at =
      let (served, state) = Phase-place s h t (waiting r) at in
      let in_t = ap (λ p. in_lock (view p)) at in
      let up = ap (λ p. is_asleep (view p)) at in
      elim state [
        | inl busy ↦
            let pending : (s.done.value == 0) ≡ true = ground (arith, busy.value) in
            let asked : Busy
                (record (device s) { done = record s.done { queue = s.done.queue ++ (t ∷ []) } })
                (t ∷ []) =
              record {
                scheduled = busy.scheduled;
                value = busy.value;
                queue_is = ap (λ q. q ++ (t ∷ [])) busy.queue_is;
              } in
            rw pending (record {
              after = _;
              is = refl;
              serial = inside-IsSerial s h t _ (blocked r) in_t up refl (
                Served-signal (device s) t r (record s.done { queue = s.done.queue ++ (t ∷ []) })
                    s.active s.scheduled served,
                asked,
              );
            })
        | inr over ↦
            let seen : (s.done.value == 0) ≡ false = ground (arith, over.value) in
            rw seen (record {
              after = _;
              is = refl;
              serial = inside-IsSerial s h t _ (releasing r) in_t up refl (
                Served-signal (device s) t r (record s.done { value = s.done.value - 1 }) s.active
                    s.scheduled served,
                record {
                  active = over.active;
                  scheduled = over.scheduled;
                  value = omega (arith, over.value);
                  queue = over.queue;
                },
              );
            })
      ]

  run_at-Makes : (p : Place) → s.place t ≡ p → Makes (run_at p t s)
  run_at-Makes outside at = record { after = s; is = refl; serial = h }
  run_at-Makes (asleep r) at = record { after = s; is = refl; serial = h }
  run_at-Makes (blocked r) at = record { after = s; is = refl; serial = h }
  run_at-Makes (acquiring r) at = try_lock-Makes s h t r at
  run_at-Makes (requesting r) at = send_request-Makes r at
  run_at-Makes (waiting r) at = wait_done-Makes r at
  run_at-Makes (releasing r) at = finish-Makes s h t r at

  pub run_thread-Makes : Makes (run_thread t s)
  run_thread-Makes = run_at-Makes (s.place t) refl
