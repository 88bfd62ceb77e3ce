-- ===== src/Synch/Buffer/Steps.antt =====
-- The steps of the bounded buffer of threads/synch.cc.
use pku_os_lab.Common.{ℕ, ◌+◌, ◌-◌, ◌≡◌, refl, ap, ◌==◌, ok, arith, Bool-cases, inl, inr, set}
use pku_os_lab.Synch.{acquire}
use pku_os_lab.Synch.Buffer.{
  buffer_size, Place, Call, put, take, outside, acquiring, asleep, testing, waiting, signalling,
  releasing, System, move, try_acquire, wait_for, test_count, signal_other, leave, run_at,
}
use pku_os_lab.Synch.Buffer.Queues.{Queued-move, Queued-append, Queued-removed, Queued-wake}
use pku_os_lab.Synch.Buffer.Held.{in_lock, is_asleep, IsHeld-outside, IsHeld-inside, IsHeld-wake}
use pku_os_lab.Synch.Buffer.Handover.{acquire-IsHeld, release-runs, release-IsHeld}
use pku_os_lab.Synch.Buffer.Kinds.{
  awaits_room, awaits_item, IsSafe, Runs, room-others, item-others, resumed-awaits_room,
  resumed-awaits_item, tested-awaits,
}
use pku_os_lab.Synch.Buffer.Waking.{inside-IsSafe, woken-room, woken-item, wait-runs, signal-runs}

module _ (s : System) (h : IsSafe s) (t : ℕ) where
  try_acquire-Runs : (c : Call) → s.place t ≡ acquiring c → Runs (ok (try_acquire t c s))
  unfolding try_acquire
  try_acquire-Runs c at_test = record {
    after = try_acquire t c s;
    is = refl;
    safe = record {
      held = acquire-IsHeld s.place s.lock t h.held c at_test;
      room =
          Queued-move s.place awaits_room t _ s.empty h.room (ap awaits_room at_test)
            (tested-awaits c (acquire t s.lock).1).0;
      item =
          Queued-move s.place awaits_item t _ s.full h.item (ap awaits_item at_test)
            (tested-awaits c (acquire t s.lock).1).1;
      fits = h.fits;
    };
  }

  wait_for-Runs : (c : Call) → s.place t ≡ testing c → Runs (wait_for t c s)
  unfolding wait_for
  wait_for-Runs (put p) at =
      let up = ap is_asleep at in
      rw (wait-runs s h t s.empty (ap in_lock at)) (record {
        after = _;
        is = refl;
        safe = record {
          held =
              release-IsHeld s.place s.lock t h.held (waiting (put p)) (ap in_lock at) up refl refl;
          room = woken-room s h t (waiting (put p)) _ up refl (
              Queued-append s.place awaits_room t (waiting (put p)) s.empty h.room
                (ap awaits_room at) refl);
          item = woken-item s h t (waiting (put p)) _ up refl (
              Queued-move s.place awaits_item t (waiting (put p)) s.full h.item (ap awaits_item at)
                refl);
          fits = h.fits;
        };
      })
  wait_for-Runs take at =
      let up = ap is_asleep at in
      rw (wait-runs s h t s.full (ap in_lock at)) (record {
        after = _;
        is = refl;
        safe = record {
          held = release-IsHeld s.place s.lock t h.held (waiting take) (ap in_lock at) up refl refl;
          room = woken-room s h t (waiting take) _ up refl (
              Queued-move s.place awaits_room t (waiting take) s.empty h.room (ap awaits_room at)
                refl);
          item = woken-item s h t (waiting take) _ up refl (
              Queued-append s.place awaits_item t (waiting take) s.full h.item (ap awaits_item at)
                refl);
          fits = h.fits;
        };
      })

  test_count-Runs : (c : Call) → s.place t ≡ testing c → Runs (test_count t c s)
  unfolding test_count
  test_count-Runs (put p) at = elim (Bool-cases (s.count == buffer_size)) [
    | inl whole ↦ rw whole (wait_for-Runs (put p) at)
    | inr room ↦ rw room (record {
      after = _;
      is = refl;
      safe =
          inside-IsSafe s h t (signalling (put p)) (s.count + 1) (set s.buffer s.count p)
            (ap in_lock at) (ap is_asleep at) (ap awaits_room at) (ap awaits_item at) refl
            (ground (arith, room, h.fits));
    })
  ]
  test_count-Runs take at = elim (Bool-cases (s.count == 0)) [
    | inl none_left ↦ rw none_left (wait_for-Runs take at)
    | inr more ↦ rw more (record {
      after = _;
      is = refl;
      safe =
          inside-IsSafe s h t (signalling take) (s.count - 1) s.buffer (ap in_lock at)
            (ap is_asleep at) (ap awaits_room at) (ap awaits_item at) refl (omega (arith, h.fits));
    })
  ]

  signal_other-Runs : (c : Call) → s.place t ≡ signalling c → Runs (signal_other t c s)
  unfolding signal_other
  signal_other-Runs (put p) at =
      let to = releasing (put p) in
      let item' = Queued-move s.place awaits_item t to s.full h.item (ap awaits_item at) refl in
      let room' = Queued-move s.place awaits_room t to s.empty h.room (ap awaits_room at) refl in
      rw (signal-runs s h t s.full (ap in_lock at)) (record {
        after = _;
        is = refl;
        safe = record {
          held =
              IsHeld-wake (move s.place t to) s.lock awaits_item s.full
                (IsHeld-inside s.place s.lock t to h.held (ap in_lock at) (ap is_asleep at) refl)
                item'.all (λ q e. (item-others q e).0);
          room =
              Queued-wake (move s.place t to) awaits_room awaits_item s.empty s.full room' item'.all
                (λ q e. (item-others q e).1) resumed-awaits_room;
          item = Queued-removed (move s.place t to) awaits_item s.full item' resumed-awaits_item;
          fits = h.fits;
        };
      })
  signal_other-Runs take at =
      let to = releasing take in
      let item' = Queued-move s.place awaits_item t to s.full h.item (ap awaits_item at) refl in
      let room' = Queued-move s.place awaits_room t to s.empty h.room (ap awaits_room at) refl in
      rw (signal-runs s h t s.empty (ap in_lock at)) (record {
        after = _;
        is = refl;
        safe = record {
          held =
              IsHeld-wake (move s.place t to) s.lock awaits_room s.empty
                (IsHeld-inside s.place s.lock t to h.held (ap in_lock at) (ap is_asleep at) refl)
                room'.all (λ q e. (room-others q e).0);
          room = Queued-removed (move s.place t to) awaits_room s.empty room' resumed-awaits_room;
          item =
              Queued-wake (move s.place t to) awaits_item awaits_room s.full s.empty item' room'.all
                (λ q e. (room-others q e).1) resumed-awaits_item;
          fits = h.fits;
        };
      })

  leave-Runs : (c : Call) → s.place t ≡ releasing c → Runs (leave t s)
  unfolding leave
  leave-Runs c at =
      let up = ap is_asleep at in
      rw (release-runs s.place s.lock t h.held (ap in_lock at)) (record {
        after = _;
        is = refl;
        safe = record {
          held = release-IsHeld s.place s.lock t h.held outside (ap in_lock at) up refl refl;
          room =
              woken-room s h t outside _ up refl
                (Queued-move s.place awaits_room t outside s.empty h.room (ap awaits_room at) refl);
          item =
              woken-item s h t outside _ up refl
                (Queued-move s.place awaits_item t outside s.full h.item (ap awaits_item at) refl);
          fits = h.fits;
        };
      })

  pub run_at-Runs : (p : Place) → s.place t ≡ p → Runs (run_at p t s)
  run_at-Runs outside at = record { after = s; is = refl; safe = h }
  run_at-Runs (asleep c) at = record { after = s; is = refl; safe = h }
  run_at-Runs (waiting c) at = record { after = s; is = refl; safe = h }
  run_at-Runs (acquiring c) at = try_acquire-Runs c at
  run_at-Runs (testing c) at = test_count-Runs c at
  run_at-Runs (signalling c) at = signal_other-Runs c at
  run_at-Runs (releasing c) at = leave-Runs c at

  pub calls-IsSafe :
      (c : Call) → s.place t ≡ outside → IsSafe (record s { place = move s.place t (acquiring c) })
  calls-IsSafe c at = record {
    held =
        IsHeld-outside s.place s.lock t (acquiring c) h.held (ap in_lock at) (ap is_asleep at) refl
          refl refl;
    room = Queued-move s.place awaits_room t (acquiring c) s.empty h.room (ap awaits_room at) refl;
    item = Queued-move s.place awaits_item t (acquiring c) s.full h.item (ap awaits_item at) refl;
    fits = h.fits;
  }
