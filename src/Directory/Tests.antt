-- ===== src/Directory/Tests.antt =====
-- The theorems on filesys/directory.cc, at a concrete directory.
use pku_os_lab.Common.{ℕ, ◌≡◌, ◌<◌, refl, zero, suc, true, [], ◌∷◌, arith, clash}
use pku_os_lab.Directory.{Directory, blank_entry, entry, matches}
use pku_os_lab.Directory.Lookup.{IsValid}

-- The name "a" in sector 40, and one free entry.
abbrev small : Directory
small = record {
  table_size = 2;
  table = record { in_use = true; sector = 40; name = 97 ∷ [] } ∷ (blank_entry ∷ []);
}

small-IsValid : IsValid small
small-IsValid = record { full = refl; unique = both }
  where
    both :
        (i j : ℕ)
        → i < 2
        → j < 2
        → (entry small i).in_use ≡ true
        → matches (entry small j) (entry small i).name ≡ true
        → i ≡ j
    both zero zero h g u m = refl
    both zero (suc zero) h g u m = clash m refl
    both zero (suc (suc j)) h g u m = absurd (omega arith)
    both (suc zero) j h g u m = clash u refl
    both (suc (suc i)) j h g u m = absurd (omega arith)
