-- ===== src/Threads/Lists/Example.antt =====
-- A list of threads/list.cc with two elements, for the tests.
use pku_os_lab.Common.{refl, [], ◌∷◌, none, some, arith, ◌==◌, if◌then◌else◌}
use pku_os_lab.Threads.Lists.{Cells, ListState}
use pku_os_lab.Threads.Lists.Chain.{Represents}
use pku_os_lab.Threads.Lists.Sequence.{Increasing}

-- The item 7 with key 2 at address 10, and the item 8 with key 5 at address 11.
abbrev pub cells : Cells
cells a =
    if a == 10
    then some (record { item = 7; key = 2; next = some 11 })
    else if a == 11
    then some (record { item = 8; key = 5; next = none })
    else none

abbrev pub two : ListState
two = record { first = some 10; last = some 11; num_in_list = 2; cells = cells; fresh = 12 }

pub two-Represents : Represents two ((7, 2) ∷ ((8, 5) ∷ []))
two-Represents = record {
  nodes = record { addr = 10; item = 7; key = 2 } ∷ (record { addr = 11; item = 8; key = 5 } ∷ []);
  holds = record {
    starts = refl;
    ends = refl;
    counts = refl;
    linked = (refl, (refl, tt));
    apart = (omega arith, (refl, (omega arith, (refl, tt))));
  };
  is = refl;
}

pub two-Increasing : Increasing ((7, 2) ∷ ((8, 5) ∷ []))
two-Increasing = ((omega arith, tt), (tt, tt))
