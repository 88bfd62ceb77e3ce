-- ===== src/SynchDisk/Serial/View.antt =====
-- The lock of filesys/synchdisk.cc: its threads, seen as threads that hold the lock of the bounded buffer, whose
-- theorems on `Acquire` and `Release` then hold for them.
use mathlib.Core.Path.{fun_ext}
use pku_os_lab.Common.{ℕ, ◌≡◌, refl, ◌∙◌, ap, Option, none, some, ◌==◌, Bool-cases, inl, inr}
use pku_os_lab.Synch.{Lock}
use pku_os_lab.Synch.Buffer
use pku_os_lab.Synch.Buffer.Held.{IsHeld}
use pku_os_lab.SynchDisk.Serial.{
  Place, outside, acquiring, asleep, requesting, waiting, blocked, releasing, move, resumed, wake,
}

-- A thread that waits for the disk is in the lock.
abbrev pub view : Place → Buffer.Place
view outside = Buffer.outside
view (acquiring r) = Buffer.acquiring Buffer.take
view (asleep r) = Buffer.asleep Buffer.take
view (requesting r) = Buffer.testing Buffer.take
view (waiting r) = Buffer.testing Buffer.take
view (blocked r) = Buffer.testing Buffer.take
view (releasing r) = Buffer.releasing Buffer.take

abbrev pub views : (ℕ → Place) → ℕ → Buffer.Place
views place t = view (place t)

pub views-move :
    (place : ℕ → Place) (t : ℕ) (p : Place)
    → views (move place t p) ≡ Buffer.move (views place) t (view p)
views-move place t p = fun_ext at
  where
    at : (u : ℕ) → views (move place t p) u ≡ Buffer.move (views place) t (view p) u
    at u = elim (Bool-cases (t == u)) [ inl same ↦ rw same refl | inr other ↦ rw other refl ]

view-resumed : (p : Place) → view (resumed p) ≡ Buffer.resumed (view p)
view-resumed outside = refl
view-resumed (acquiring r) = refl
view-resumed (asleep r) = refl
view-resumed (requesting r) = refl
view-resumed (waiting r) = refl
view-resumed (blocked r) = refl
view-resumed (releasing r) = refl

pub views-wake :
    (place : ℕ → Place) (woken : Option ℕ)
    → views (wake place woken) ≡ Buffer.wake (views place) woken
views-wake place none = refl
views-wake place (some t) =
    views-move place t (resumed (place t))
    ∙ ap (Buffer.move (views place) t) (view-resumed (place t))

-- The lock is held as that of the bounded buffer is.
abbrev pub IsLocked : (ℕ → Place) → Lock → Type 0
IsLocked place l = IsHeld (views place) l
