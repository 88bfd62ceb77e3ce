-- ===== src/Synch/Buffer/Safe.antt =====
-- The bounded buffer of threads/synch.cc in every order of steps.
use pku_os_lab.Common.{
  ℕ, ◌≡◌, refl, ◌∙◌, sym, subst, true, false, ◌||◌, ◌⊎◌, List, [], ◌∷◌, has, Option, ◌==◌, Run, ok,
  arith, Bool-cases, inl, inr,
}
use pku_os_lab.Synch.{Lock}
use pku_os_lab.Synch.Buffer.{
  Place, System, run_thread, new_buffer, Step, calls, runs, Reach, here, next,
}
use pku_os_lab.Synch.Buffer.Held.{in_lock, is_asleep, is_acquiring, is_empty, IsHeld}
use pku_os_lab.Synch.Buffer.Kinds.{IsSafe, Runs}
use pku_os_lab.Synch.Buffer.Steps.{run_at-Runs, calls-IsSafe}

pub new_buffer-IsSafe : (garbage : Option ℕ) (memory : List ℕ) → IsSafe (new_buffer garbage memory)
unfolding new_buffer
new_buffer-IsSafe garbage memory = record {
  held = record {
    binary = omega arith;
    taken = λ e. absurd (omega (arith, e));
    alone = λ t e. cc;
    sleeping = record { all = tt; distinct = tt; listed = λ t e. cc };
    awake = λ e more. cc;
  };
  room = record { all = tt; distinct = tt; listed = λ t e. cc };
  item = record { all = tt; distinct = tt; listed = λ t e. cc };
  fits = omega arith;
}

-- A run that gives `s'`, and a run that is safe.
same_result : (r : Run System) (s' : System) → Runs r → r ≡ ok s' → IsSafe s'
same_result r s' q e = subst IsSafe (ok_injective q.after s' (sym q.is ∙ e)) q.safe
  where
    ok_injective : (a b : System) → ok a ≡ ok b → a ≡ b
    ok_injective a b e = cc

Step-IsSafe : {s s' : System} → Step s s' → IsSafe s → IsSafe s'
Step-IsSafe (calls t c s at) h = calls-IsSafe s h t c at
Step-IsSafe (runs t s s' e) h = same_result _ s' (run_at-Runs s h t (s.place t) refl) e

-- In every order of calls and of steps of any threads from a new buffer, whatever its memory holds: at
-- most one thread is in the lock, it is the recorded holder, and then the lock's semaphore is 0 and
-- otherwise 1; the count never exceeds the size; each queue holds just the threads that sleep in it, each once;
-- and when the lock is free while a thread sleeps for it, another thread is about to test it.
pub Reach-IsSafe :
    (garbage : Option ℕ) (memory : List ℕ) (s : System)
    → Reach (new_buffer garbage memory) s
    → IsSafe s
Reach-IsSafe garbage memory _ here = new_buffer-IsSafe garbage memory
Reach-IsSafe garbage memory s (next r step) = Step-IsSafe step (Reach-IsSafe garbage memory _ r)

has-is_empty : (t : ℕ) (queue : List ℕ) → has t queue ≡ true → is_empty queue ≡ false
has-is_empty t [] h = cc
has-is_empty t (u ∷ us) h = refl

-- A thread does not sleep for the lock, or some thread is awake for it.
pub guarded :
    (place : ℕ → Place) (l : Lock) (t : ℕ)
    → IsHeld place l
    → (is_asleep (place t) ≡ false)
      ⊎ ((u : ℕ) × ((in_lock (place u) || is_acquiring (place u)) ≡ true))
guarded place l t h = elim (Bool-cases (is_asleep (place t))) [
  | inr up ↦ inl up
  | inl down ↦
      let more = has-is_empty t l.semaphore.queue (h.sleeping.listed t down) in
      elim (Bool-cases (l.semaphore.value == 0)) [
        | inl held ↦ let (u, in_u) = h.taken (ground (arith, held)) in inr (u, rw in_u refl)
        | inr free ↦
            let (u, up) = h.awake (ground (arith, free, h.binary)) more in
            inr (u, ground (arith, up))
      ]
]

-- In every reachable state the next step of any thread is made: none of the `ASSERT`s of `Wait`, `Signal`
-- and `Release` fails. And while a thread sleeps for the lock, some thread is awake that holds the lock or
-- is about to test it, so that no sleeper is stranded.
pub run_thread_live :
    (garbage : Option ℕ) (memory : List ℕ) (s : System)
    → Reach (new_buffer garbage memory) s
    → (t : ℕ)
    → ((s' : System) × (run_thread t s ≡ ok s'))
      × ((is_asleep (s.place t) ≡ false)
          ⊎ ((u : ℕ) × ((in_lock (s.place u) || is_acquiring (s.place u)) ≡ true)))
run_thread_live garbage memory s r t =
    let safe = Reach-IsSafe garbage memory s r in
    let q = run_at-Runs s safe t (s.place t) refl in
    ((q.after, q.is), guarded s.place s.lock t safe.held)
