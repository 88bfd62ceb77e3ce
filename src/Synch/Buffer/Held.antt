-- ===== src/Synch/Buffer/Held.antt =====
-- The lock of the bounded buffer of threads/synch.cc: who holds it, and who is awake for it.
use pku_os_lab.Common.{
  ℕ, ◌≤◌, ◌≡◌, refl, ◌∙◌, sym, ap, Bool, true, false, List, [], ◌∷◌, Option, none, some, ◌==◌,
  if◌then◌else◌, All, arith, Bool-cases, inl, inr, clash,
}
use pku_os_lab.Synch.{Lock, removed}
use pku_os_lab.Synch.Buffer.{
  Place, outside, acquiring, asleep, testing, waiting, signalling, releasing, move, resumed, wake,
}
use pku_os_lab.Synch.Buffer.Queues.{Queued, Queued-move, Queued-wake}

-- The places at which a thread holds the lock.
abbrev pub in_lock : Place → Bool
in_lock outside = false
in_lock (acquiring c) = false
in_lock (asleep c) = false
in_lock (testing c) = true
in_lock (waiting c) = false
in_lock (signalling c) = true
in_lock (releasing c) = true

abbrev pub is_acquiring : Place → Bool
is_acquiring outside = false
is_acquiring (acquiring c) = true
is_acquiring (asleep c) = false
is_acquiring (testing c) = false
is_acquiring (waiting c) = false
is_acquiring (signalling c) = false
is_acquiring (releasing c) = false

abbrev pub is_asleep : Place → Bool
is_asleep outside = false
is_asleep (acquiring c) = false
is_asleep (asleep c) = true
is_asleep (testing c) = false
is_asleep (waiting c) = false
is_asleep (signalling c) = false
is_asleep (releasing c) = false

abbrev pub is_empty : List ℕ → Bool
is_empty [] = true
is_empty (t ∷ ts) = false

-- At most one thread is in the lock, and it is the holder; when the lock is free and a thread sleeps for
-- it, another one is about to test it.
pub record IsHeld (place : ℕ → Place) (l : Lock) : Type 0 where
  pub binary : l.semaphore.value ≤ 1
  pub taken : l.semaphore.value ≡ 0 → (t : ℕ) × (in_lock (place t) ≡ true)
  pub alone : (t : ℕ) → in_lock (place t) ≡ true → (l.semaphore.value ≡ 0) × (l.holder ≡ some t)
  pub sleeping : Queued place is_asleep l.semaphore.queue
  pub awake :
      l.semaphore.value ≡ 1
      → is_empty l.semaphore.queue ≡ false
      → (t : ℕ) × (is_acquiring (place t) ≡ true)

-- To wake a thread takes no lock, and leaves those awake that are.
resumed-in_lock : (p : Place) → in_lock (resumed p) ≡ in_lock p
resumed-in_lock outside = refl
resumed-in_lock (acquiring c) = refl
resumed-in_lock (asleep c) = refl
resumed-in_lock (testing c) = refl
resumed-in_lock (waiting c) = refl
resumed-in_lock (signalling c) = refl
resumed-in_lock (releasing c) = refl

pub resumed-is_asleep : (p : Place) → is_asleep (resumed p) ≡ false
resumed-is_asleep outside = refl
resumed-is_asleep (acquiring c) = refl
resumed-is_asleep (asleep c) = refl
resumed-is_asleep (testing c) = refl
resumed-is_asleep (waiting c) = refl
resumed-is_asleep (signalling c) = refl
resumed-is_asleep (releasing c) = refl

-- A thread in the lock is awake.
pub in_lock-is_asleep : (p : Place) → in_lock p ≡ true → is_asleep p ≡ false
in_lock-is_asleep outside h = refl
in_lock-is_asleep (acquiring c) h = refl
in_lock-is_asleep (asleep c) h = cc
in_lock-is_asleep (testing c) h = refl
in_lock-is_asleep (waiting c) h = refl
in_lock-is_asleep (signalling c) h = refl
in_lock-is_asleep (releasing c) h = refl

resumed-is_acquiring : (p : Place) → is_acquiring p ≡ true → is_acquiring (resumed p) ≡ true
resumed-is_acquiring outside h = h
resumed-is_acquiring (acquiring c) h = h
resumed-is_acquiring (asleep c) h = refl
resumed-is_acquiring (testing c) h = h
resumed-is_acquiring (waiting c) h = refl
resumed-is_acquiring (signalling c) h = h
resumed-is_acquiring (releasing c) h = h

pub wake-in_lock :
    (place : ℕ → Place) (woken : Option ℕ) (t : ℕ)
    → in_lock (wake place woken t) ≡ in_lock (place t)
wake-in_lock place none t = refl
wake-in_lock place (some u) t = elim (Bool-cases (u == t)) [
  | inr other ↦ rw other refl
  | inl same ↦
      let e : u ≡ t = ground (arith, same) in
      rw same (resumed-in_lock (place u) ∙ ap (λ w. in_lock (place w)) e)
]

pub wake-is_acquiring :
    (place : ℕ → Place) (woken : Option ℕ) (t : ℕ)
    → is_acquiring (place t) ≡ true
    → is_acquiring (wake place woken t) ≡ true
wake-is_acquiring place none t h = h
wake-is_acquiring place (some u) t h = elim (Bool-cases (u == t)) [
  | inr other ↦ rw other h
  | inl same ↦
      let e : u ≡ t = ground (arith, same) in
      rw same (resumed-is_acquiring (place u) (ap (λ w. is_acquiring (place w)) e ∙ h))
]

-- A test of a thread that moved.
pub at-move :
    (place : ℕ → Place) (kind : Place → Bool) (t : ℕ) (p : Place) (u : ℕ)
    → kind (move place t p u) ≡ (if t == u then kind p else kind (place u))
at-move place kind t p u = elim (Bool-cases (t == u)) [
  | inl same ↦ rw same refl
  | inr other ↦ rw other refl
]

-- A thread that is not in the lock moves to another such place.
pub IsHeld-outside :
    (place : ℕ → Place) (l : Lock) (t : ℕ) (p : Place)
    → IsHeld place l
    → in_lock (place t) ≡ false
    → is_asleep (place t) ≡ false
    → in_lock p ≡ false
    → is_asleep p ≡ false
    → is_acquiring p ≡ true
    → IsHeld (move place t p) l
IsHeld-outside place l t p h out up out' calm up' = record {
  binary = h.binary;
  taken =
      λ e. let (u, in_u) = h.taken e in (u, at-move place in_lock t p u ∙ rw (apart u in_u) in_u);
  alone = λ u in_u. h.alone u (stays u (sym (at-move place in_lock t p u) ∙ in_u));
  sleeping = Queued-move place is_asleep t p l.semaphore.queue h.sleeping up calm;
  awake = λ e more.
      let (u, awake_u) = h.awake e more in (u, at-move place is_acquiring t p u ∙ either u awake_u);
}
  where
    apart : (u : ℕ) → in_lock (place u) ≡ true → (t == u) ≡ false
    apart u in_u = elim (Bool-cases (t == u)) [
      | inr other ↦ other
      | inl same ↦
          let e : t ≡ u = ground (arith, same) in clash (ap (λ w. in_lock (place w)) e ∙ in_u) out
    ]

    stays :
        (u : ℕ)
        → (if t == u then in_lock p else in_lock (place u)) ≡ true
        → in_lock (place u) ≡ true
    stays u e = ground (arith, e, out')

    either :
        (u : ℕ)
        → is_acquiring (place u) ≡ true
        → (if t == u then is_acquiring p else is_acquiring (place u)) ≡ true
    either u e = ground (arith, e, up')

-- The holder goes on in the lock.
pub IsHeld-inside :
    (place : ℕ → Place) (l : Lock) (t : ℕ) (p : Place)
    → IsHeld place l
    → in_lock (place t) ≡ true
    → is_asleep (place t) ≡ false
    → in_lock p ≡ true
    → IsHeld (move place t p) l
IsHeld-inside place l t p h in_t up in_p = record {
  binary = h.binary;
  taken = λ e. (t, at-move place in_lock t p t ∙ here_t);
  alone = λ u in_u. only u (sym (at-move place in_lock t p u) ∙ in_u);
  sleeping =
      Queued-move place is_asleep t p l.semaphore.queue h.sleeping up (in_lock-is_asleep p in_p);
  awake = λ e more. absurd (omega (arith, e, (h.alone t in_t).0));
}
  where
    here_t : (if t == t then in_lock p else in_lock (place t)) ≡ true
    here_t = ground (arith, in_p, in_t)

    only :
        (u : ℕ)
        → (if t == u then in_lock p else in_lock (place u)) ≡ true
        → (l.semaphore.value ≡ 0) × (l.holder ≡ some u)
    only u e = elim (Bool-cases (t == u)) [
      | inl same ↦ let eq : t ≡ u = ground (arith, same) in rw (← eq) (h.alone t in_t)
      | inr other ↦ h.alone u (ground (arith, e, other))
    ]

-- `Signal` wakes threads of another kind.
pub IsHeld-wake :
    (place : ℕ → Place) (l : Lock) (other : Place → Bool) (woken : List ℕ)
    → IsHeld place l
    → All (λ (u : ℕ). other (place u) ≡ true) woken
    → ((p : Place) → other p ≡ true → is_asleep p ≡ false)
    → IsHeld (wake place (removed woken).0) l
IsHeld-wake place l other woken h all apart = record {
  binary = h.binary;
  taken = λ e. let (u, in_u) = h.taken e in (u, wake-in_lock place _ u ∙ in_u);
  alone = λ u in_u. h.alone u (sym (wake-in_lock place (removed woken).0 u) ∙ in_u);
  sleeping =
      Queued-wake place is_asleep other l.semaphore.queue woken h.sleeping all apart
        resumed-is_asleep;
  awake = λ e more. let (u, up) = h.awake e more in (u, wake-is_acquiring place _ u up);
}
