-- ===== src/Threads/Messages/Tests.antt =====
-- The theorem on the messages of threads/thread.cc, at a concrete table.
use pku_os_lab.Common.{
  ℕ, zero, suc, ◌<◌, ◌≤◌, get_or, ◌≡◌, refl, false, List, [], ◌∷◌, ◌==◌, if◌then◌else◌, arith, true,
  ◌⊎◌, inl,
}
use pku_os_lab.Threads.Messages.{Message, no_message, receive}
use pku_os_lab.Threads.Messages.Delivery.{HasLength, receive-Carries}

abbrev free_slots : ℕ → List Message
free_slots zero = []
free_slots (suc n) = record no_message { valid = false } ∷ free_slots n

-- The string "ab".
abbrev greeting : ℕ → ℕ
greeting j = if j == 0 then 97 else if j == 1 then 98 else 0

greeting-HasLength : HasLength greeting 2
greeting-HasLength = record { ends = refl; before = nonzero }
  where
    nonzero : (j : ℕ) → j < 2 → (greeting j == 0) ≡ false
    nonzero zero h = refl
    nonzero (suc zero) h = refl
    nonzero (suc (suc j)) h = absurd (omega arith)

-- A message for thread 4 in slot 1.
abbrev waiting : List Message
waiting =
    record no_message { valid = false }
    ∷ (record { source = 3; cnt = 3; valid = true; destination = 4; content = greeting }
        ∷ free_slots 18)

receive-Carries_example :
    ((receive waiting 4 (λ j. 0)).0 ≡ 3)
    × ((j : ℕ) → j ≤ 2 → (receive waiting 4 (λ j. 0)).1 j ≡ greeting j)
receive-Carries_example =
    receive-Carries waiting 4 3 2 1 greeting (λ j. 0) (omega arith)
      (record { valid = refl; from = refl; to = refl; size = refl; text = λ j h. refl }) none_before
  where
    none_before :
        (i : ℕ)
        → i < 1
        → ((get_or waiting i no_message).valid ≡ false)
          ⊎ (((get_or waiting i no_message).destination == 4) ≡ false)
    none_before zero h = inl refl
    none_before (suc i) h = absurd (omega arith)
