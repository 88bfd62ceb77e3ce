-- ===== src/Threads/Lists/Tests.antt =====
-- The theorems on threads/list.cc, at concrete lists.
use pku_os_lab.Common.{ℕ, ◌≡◌, List, [], ◌∷◌, ok}
use pku_os_lab.Threads.Lists.{ListState, sorted_insert, remove_item}
use pku_os_lab.Threads.Lists.Chain.{Represents}
use pku_os_lab.Threads.Lists.Sequence.{Increasing, Placed, sorted_insert-Placed}
use pku_os_lab.Threads.Lists.Extract.{Extracted, remove_item-Extracted}
use pku_os_lab.Threads.Lists.Example.{two, two-Represents, two-Increasing}

sorted_insert-Placed_example :
    (l' : ListState) × (ys : List (ℕ × ℕ)) × (sorted_insert two 9 2 ≡ ok l')
    × Represents l' ys
    × Increasing ys
    × Placed (9, 2) ((7, 2) ∷ ((8, 5) ∷ [])) ys
sorted_insert-Placed_example =
    sorted_insert-Placed two ((7, 2) ∷ ((8, 5) ∷ [])) 9 2 two-Represents two-Increasing

remove_item-Extracted_example : Extracted two ((7, 2) ∷ ((8, 5) ∷ [])) 8 (remove_item two 8)
remove_item-Extracted_example = remove_item-Extracted two ((7, 2) ∷ ((8, 5) ∷ [])) 8 two-Represents
