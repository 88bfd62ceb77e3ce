-- ===== src/Synch/Buffer/Kinds.antt =====
-- What is kept in every step of the bounded buffer of threads/synch.cc.
use pku_os_lab.Common.{◌≤◌, ◌≡◌, refl, Bool, true, false, Run, ok, if◌then◌else◌}
use pku_os_lab.Synch.Buffer.{
  buffer_size, Place, Call, put, take, outside, acquiring, asleep, testing, waiting, signalling,
  releasing, System, resumed,
}
use pku_os_lab.Synch.Buffer.Queues.{Queued}
use pku_os_lab.Synch.Buffer.Held.{in_lock, is_asleep, IsHeld}

-- The threads in the queues of the conditions.
abbrev pub awaits_room : Place → Bool
awaits_room (waiting (put p)) = true
awaits_room (waiting take) = false
awaits_room outside = false
awaits_room (acquiring c) = false
awaits_room (asleep c) = false
awaits_room (testing c) = false
awaits_room (signalling c) = false
awaits_room (releasing c) = false

abbrev pub awaits_item : Place → Bool
awaits_item (waiting (put p)) = false
awaits_item (waiting take) = true
awaits_item outside = false
awaits_item (acquiring c) = false
awaits_item (asleep c) = false
awaits_item (testing c) = false
awaits_item (signalling c) = false
awaits_item (releasing c) = false

pub record IsSafe (s : System) : Type 0 where
  pub held : IsHeld s.place s.lock
  pub room : Queued s.place awaits_room s.empty
  pub item : Queued s.place awaits_item s.full
  pub fits : s.count ≤ buffer_size

pub asleep-room : (p : Place) → is_asleep p ≡ true → awaits_room p ≡ false
asleep-room (asleep c) h = refl
asleep-room outside h = refl
asleep-room (acquiring c) h = refl
asleep-room (testing c) h = refl
asleep-room (waiting c) h = cc
asleep-room (signalling c) h = refl
asleep-room (releasing c) h = refl

pub asleep-item : (p : Place) → is_asleep p ≡ true → awaits_item p ≡ false
asleep-item (asleep c) h = refl
asleep-item outside h = refl
asleep-item (acquiring c) h = refl
asleep-item (testing c) h = refl
asleep-item (waiting c) h = cc
asleep-item (signalling c) h = refl
asleep-item (releasing c) h = refl

pub resumed-awaits_room : (p : Place) → awaits_room (resumed p) ≡ false
resumed-awaits_room outside = refl
resumed-awaits_room (acquiring c) = refl
resumed-awaits_room (asleep c) = refl
resumed-awaits_room (testing c) = refl
resumed-awaits_room (waiting c) = refl
resumed-awaits_room (signalling c) = refl
resumed-awaits_room (releasing c) = refl

pub room-others :
    (p : Place) → awaits_room p ≡ true → (is_asleep p ≡ false) × (awaits_item p ≡ false)
room-others (waiting (put p)) h = (refl, refl)
room-others (waiting take) h = (refl, cc)
room-others outside h = (refl, refl)
room-others (acquiring c) h = (refl, refl)
room-others (asleep c) h = (cc, refl)
room-others (testing c) h = (refl, refl)
room-others (signalling c) h = (refl, refl)
room-others (releasing c) h = (refl, refl)

pub resumed-awaits_item : (p : Place) → awaits_item (resumed p) ≡ false
resumed-awaits_item outside = refl
resumed-awaits_item (acquiring c) = refl
resumed-awaits_item (asleep c) = refl
resumed-awaits_item (testing c) = refl
resumed-awaits_item (waiting c) = refl
resumed-awaits_item (signalling c) = refl
resumed-awaits_item (releasing c) = refl

pub item-others :
    (p : Place) → awaits_item p ≡ true → (is_asleep p ≡ false) × (awaits_room p ≡ false)
item-others (waiting take) h = (refl, refl)
item-others (waiting (put p)) h = (refl, cc)
item-others outside h = (refl, refl)
item-others (acquiring c) h = (refl, refl)
item-others (asleep c) h = (cc, refl)
item-others (testing c) h = (refl, refl)
item-others (signalling c) h = (refl, refl)
item-others (releasing c) h = (refl, refl)

pub in_lock-awaits :
    (p : Place) → in_lock p ≡ true → (awaits_room p ≡ false) × (awaits_item p ≡ false)
in_lock-awaits outside h = (refl, refl)
in_lock-awaits (acquiring c) h = (refl, refl)
in_lock-awaits (asleep c) h = (refl, refl)
in_lock-awaits (testing c) h = (refl, refl)
in_lock-awaits (waiting c) h = (cc, cc)
in_lock-awaits (signalling c) h = (refl, refl)
in_lock-awaits (releasing c) h = (refl, refl)

-- The place after the test of `P` in `Acquire`.
pub tested-awaits :
    (c : Call) (through : Bool)
    → (awaits_room (if through then testing c else asleep c) ≡ false)
      × (awaits_item (if through then testing c else asleep c) ≡ false)
tested-awaits c true = (refl, refl)
tested-awaits c false = (refl, refl)

-- What a step of the thread `t` may do.
pub record Runs (r : Run System) : Type 0 where
  pub after : System
  pub is : r ≡ ok after
  pub safe : IsSafe after
