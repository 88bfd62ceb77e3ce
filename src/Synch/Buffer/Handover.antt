-- ===== src/Synch/Buffer/Handover.antt =====
-- `Acquire` and `Release` of threads/synch.cc, for threads that use the bounded buffer.
use pku_os_lab.Common.{
  ℕ, ◌+◌, ◌-◌, ◌≡◌, refl, ◌∙◌, sym, ap, true, false, List, [], ◌∷◌, ◌++◌, none, some, ◌==◌,
  if◌then◌else◌, ok, All, arith, Bool-cases, inl, inr, clash,
}
use pku_os_lab.Synch.{Lock, p_pass, v, acquire, release, removed, is_held_by}
use pku_os_lab.Synch.Buffer.{Place, Call, outside, acquiring, asleep, testing, move, wake, resumed}
use pku_os_lab.Synch.Buffer.Queues.{Queued, Queued-move, Queued-append, Queued-removed}
use pku_os_lab.Synch.Buffer.Held.{
  in_lock, is_acquiring, is_asleep, is_empty, IsHeld, wake-in_lock, at-move, resumed-is_asleep,
  in_lock-is_asleep,
}

module _ (place : ℕ → Place) (l : Lock) (t : ℕ) (h : IsHeld place l) where
  -- The lock is held, and the thread goes to sleep.
  refused-IsHeld :
      (p : Place)
      → in_lock (place t) ≡ false
      → is_asleep (place t) ≡ false
      → in_lock p ≡ false
      → is_asleep p ≡ true
      → l.semaphore.value ≡ 0
      → IsHeld
          (move place t p)
          (record l { semaphore = record l.semaphore { queue = l.semaphore.queue ++ (t ∷ []) } })
  refused-IsHeld p out up out' down held = record {
    binary = h.binary;
    taken = λ e. let (u, in_u) = h.taken e in (u, at-move place in_lock t p u ∙ stays_in u in_u);
    alone = λ u in_u. h.alone u (stays u (sym (at-move place in_lock t p u) ∙ in_u));
    sleeping = Queued-append place is_asleep t p l.semaphore.queue h.sleeping up down;
    awake = λ e more. absurd (omega (arith, e, held));
  }
    where
      stays_in :
          (u : ℕ)
          → in_lock (place u) ≡ true
          → (if t == u then in_lock p else in_lock (place u)) ≡ true
      stays_in u in_u = elim (Bool-cases (t == u)) [
        | inr other ↦ rw other in_u
        | inl same ↦
            let e : t ≡ u = ground (arith, same) in clash (ap (λ w. in_lock (place w)) e ∙ in_u) out
      ]

      stays :
          (u : ℕ)
          → (if t == u then in_lock p else in_lock (place u)) ≡ true
          → in_lock (place u) ≡ true
      stays u e = ground (arith, e, out')

  -- The lock is free, and the thread takes it.
  granted-IsHeld :
      (p : Place)
      → is_asleep (place t) ≡ false
      → in_lock p ≡ true
      → (l.semaphore.value == 0) ≡ false
      → IsHeld (move place t p) (record {
        holder = some t;
        semaphore = record l.semaphore { value = l.semaphore.value - 1 };
      })
  granted-IsHeld p up in_p free = record {
    binary = omega (arith, h.binary);
    taken = λ e. (t, at-move place in_lock t p t ∙ here_t);
    alone = λ u in_u. only u (sym (at-move place in_lock t p u) ∙ in_u);
    sleeping =
        Queued-move place is_asleep t p l.semaphore.queue h.sleeping up (in_lock-is_asleep p in_p);
    awake = λ e more. absurd (omega (arith, e, h.binary));
  }
    where
      here_t : (if t == t then in_lock p else in_lock (place t)) ≡ true
      here_t = ground (arith, in_p)

      only :
          (u : ℕ)
          → (if t == u then in_lock p else in_lock (place u)) ≡ true
          → (l.semaphore.value - 1 ≡ 0) × (some t ≡ some u)
      only u e = elim (Bool-cases (t == u)) [
        | inl same ↦ let eq : t ≡ u = ground (arith, same) in (omega (arith, h.binary), ap some eq)
        | inr other ↦ absurd (ground (arith, (h.alone u (ground (arith, e, other))).0, free))
      ]

  pub acquire-IsHeld :
      (c : Call)
      → place t ≡ acquiring c
      → IsHeld (move place t (if (acquire t l).1 then testing c else asleep c)) (acquire t l).0
  unfolding acquire p_pass
  acquire-IsHeld c at_test =
      let out : in_lock (place t) ≡ false = ap in_lock at_test in
      let up : is_asleep (place t) ≡ false = ap is_asleep at_test in
      elim (Bool-cases (l.semaphore.value == 0)) [
        | inl held ↦ rw held (refused-IsHeld (asleep c) out up refl refl (ground (arith, held)))
        | inr free ↦ rw free (granted-IsHeld (testing c) up refl free)
      ]

  -- The lock after `Release`.
  abbrev pub freed : Lock
  freed = record {
    holder = none;
    semaphore = record { value = l.semaphore.value + 1; queue = (removed l.semaphore.queue).1 };
  }

  is_held_by_self : is_held_by t (some t) ≡ true
  is_held_by_self = ground arith

  pub release-runs :
      in_lock (place t) ≡ true → release t l ≡ ok (freed, (removed l.semaphore.queue).0)
  unfolding release v
  release-runs in_t = rw ((h.alone t in_t).1, is_held_by_self) refl

  -- The thread that is woken, if one sleeps, is about to test the lock.
  woken_awake :
      (place' : ℕ → Place) (queue : List ℕ)
      → All (λ (u : ℕ). is_asleep (place' u) ≡ true) queue
      → is_empty (removed queue).1 ≡ false
      → (u : ℕ) × (is_acquiring (wake place' (removed queue).0 u) ≡ true)
  woken_awake place' [] all more = absurd (cc)
  woken_awake place' (u ∷ us) all more =
      (u, at-move place' is_acquiring u (resumed (place' u)) u ∙ self)
    where
      wakes : (p : Place) → is_asleep p ≡ true → is_acquiring (resumed p) ≡ true
      wakes (asleep c) e = refl
      wakes outside e = cc
      wakes (acquiring c) e = cc
      wakes (testing c) e = cc
      wakes (Place.waiting c) e = cc
      wakes (Place.signalling c) e = cc
      wakes (Place.releasing c) e = cc

      self : (if u == u then is_acquiring (resumed (place' u)) else is_acquiring (place' u)) ≡ true
      self = ground (arith, wakes (place' u) all.0)

  -- The holder leaves the lock for the place `p`, and wakes the first sleeper.
  pub release-IsHeld :
      (p : Place)
      → in_lock (place t) ≡ true
      → is_asleep (place t) ≡ false
      → in_lock p ≡ false
      → is_asleep p ≡ false
      → IsHeld (wake (move place t p) (removed l.semaphore.queue).0) freed
  release-IsHeld p in_t up out calm = record {
    binary = omega (arith, (h.alone t in_t).0);
    taken = λ e. absurd (omega (arith, e));
    alone = λ u in_u. nobody u (
        sym (at-move place in_lock t p u)
        ∙ sym (wake-in_lock (move place t p) (removed l.semaphore.queue).0 u)
        ∙ in_u);
    sleeping =
        Queued-removed (move place t p) is_asleep l.semaphore.queue sleeping' resumed-is_asleep;
    awake = λ e more. woken_awake (move place t p) l.semaphore.queue sleeping'.all more;
  }
    where
      sleeping' : Queued (move place t p) is_asleep l.semaphore.queue
      sleeping' = Queued-move place is_asleep t p l.semaphore.queue h.sleeping up calm

      nobody :
          (u : ℕ)
          → (if t == u then in_lock p else in_lock (place u)) ≡ true
          → (l.semaphore.value + 1 ≡ 0) × (none ≡ some u)
      nobody u e = elim (Bool-cases (t == u)) [
        | inl same ↦ absurd (ground (arith, e, same, out))
        | inr other ↦
            let held_t = (h.alone t in_t).1 in
            let held_u = (h.alone u (ground (arith, e, other))).1 in
            absurd (ground (arith, held_t, held_u, other))
      ]
