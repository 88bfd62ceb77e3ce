-- ===== src/FileSystem/Tests/Contents.antt =====
-- The theorems on `FetchFrom` and `WriteBack` of filesys/ and userprog/bitmap.cc: a free map and a directory of two
-- entries as the contents of a file, and the header of a file as a sector.
use pku_os_lab.Common.{
  ℕ, zero, suc, ◌+◌, ◌++◌, ◌≡◌, refl, true, false, [], ◌∷◌, pos, minus_one, ok, arith, ◌<◌, clash,
  set,
}
use pku_os_lab.Directory.{matches, Directory, entry}
use pku_os_lab.Directory.Lookup.{find_sector-none}
use pku_os_lab.Directory.Lookup
use pku_os_lab.FileHeader.Attributes.{header_create_init, get_file_extension}
use pku_os_lab.FileSystem.Dates.{Dated, fetch_header-header_create_init}
use pku_os_lab.FileSystem.HeaderSector
use pku_os_lab.FileSystem.HeaderSector.{fetch_header-write_header}
use pku_os_lab.FileSystem.MapFile.{write_map, fetch_map, fetch_map-write_map}
use pku_os_lab.FileSystem.DirectoryFile.{
  write_directory, fetch_directory, fetch_directory-write_directory,
}
use pku_os_lab.SynchDisk.{Disk}
use pku_os_lab.FileHeader.Sectors.{has}
use pku_os_lab.FileHeader.Direct.RoundTrip.{Describes}
use pku_os_lab.FileSystem.Tests.{entries, empty, empty-IsConsistent, header, one_file}

header-Describes : Describes header 200 (3 ∷ (4 ∷ []))
header-Describes = record {
  bytes = refl;
  number = refl;
  as_many = refl;
  holds = (refl, (refl, tt));
}

-- Byte `q` of sector `s` is 7.
abbrev sevens : Disk (ℕ → ℕ)
sevens s q = 7

fetch_map-write_map_example :
    (disk' : Disk (ℕ → ℕ)) × (write_map header (λ i j. 1) one_file.free_map sevens ≡ ok disk')
    × (fetch_map header disk' (λ j. 1) empty.free_map ≡ ok one_file.free_map)
    × ((s : ℕ) → has s (3 ∷ (4 ∷ [])) ≡ false → disk' s ≡ sevens s)
fetch_map-write_map_example =
    fetch_map-write_map header 200 (3 ∷ (4 ∷ [])) one_file.free_map empty.free_map (λ i j. 1) sevens
      header-Describes (omega arith, (omega arith, tt)) (refl, (refl, tt))
      (record { sized = refl; stored = refl; narrow = omega arith }) empty-IsConsistent.map_valid
      refl (omega arith)

-- The file "ab", with its header at 300, and an entry that is free.
abbrev two_entries : Directory
two_entries = record {
  table_size = 2;
  table = record { in_use = true; sector = 300; name = 97 ∷ (98 ∷ []) } ∷ entries 1;
}

two_entries-IsValid : Lookup.IsValid two_entries
two_entries-IsValid = record { full = refl; unique = only_first }
  where
    only_first :
        (i j : ℕ)
        → i < 2
        → j < 2
        → (entry two_entries i).in_use ≡ true
        → matches (entry two_entries j) (entry two_entries i).name ≡ true
        → i ≡ j
    only_first zero zero hi hj u m = refl
    only_first zero (suc zero) hi hj u m = clash m refl
    only_first zero (suc (suc j)) hi hj u m = absurd (omega arith)
    only_first (suc zero) j hi hj u m = clash u refl
    only_first (suc (suc i)) j hi hj u m = absurd (omega arith)

fetch_directory-write_directory_example :
    (disk' : Disk (ℕ → ℕ)) × (write_directory header (λ i j. 1) (λ i j. 5) two_entries sevens
      ≡ ok disk')
    × (fetch_directory header disk'
          (λ j. 1)
          (λ i j. 5)
          (record { table_size = 2; table = entries 2 })
        ≡ ok two_entries)
    × ((s : ℕ) → has s (3 ∷ (4 ∷ [])) ≡ false → disk' s ≡ sevens s)
fetch_directory-write_directory_example =
    fetch_directory-write_directory header 200 (3 ∷ (4 ∷ [])) two_entries
      (record { table_size = 2; table = entries 2 }) (λ i j. 1) (λ i j. 5) sevens header-Describes
      (omega arith, (omega arith, tt)) (refl, (refl, tt)) two_entries-IsValid
      (
        record { fits_word = omega arith; short = omega arith; characters = omega arith },
        (record { fits_word = omega arith; short = omega arith; characters = tt }, tt),
      )
      refl (omega arith)

-- The last entry is -1.
fetch_header-write_header_example :
    HeaderSector.Stored
      (record header { data_sectors = set header.data_sectors 8 minus_one })
      (λ k. 65 + k)
      2
      sevens
unfolding HeaderSector.IsInt
fetch_header-write_header_example =
    fetch_header-write_header (record header { data_sectors = set header.data_sectors 8 minus_one })
      (λ k. 65 + k) 2 sevens
      (record { bytes = omega arith; sectors = omega arith; full = refl; ints = omega arith })
      (omega arith)

-- "a.c"
fetch_header-header_create_init_example :
    (disk' : Disk (ℕ → ℕ)) × (made attributes' : ℕ → ℕ) × (header_create_init
        (λ k. 1)
        (get_file_extension ((97 ∷ []) ++ 46 ∷ (99 ∷ [])))
        (110 ∷ [])
      ≡ ok made)
    × (HeaderSector.write_header (pos 2) header made sevens ≡ ok disk')
    × (HeaderSector.fetch_header (pos 2) disk' ≡ ok (header, attributes'))
    × Dated (99 ∷ []) (110 ∷ []) attributes'
unfolding HeaderSector.IsInt
fetch_header-header_create_init_example =
    fetch_header-header_create_init header (λ k. 1) (97 ∷ []) (99 ∷ []) (110 ∷ []) 2 sevens
      (record { bytes = omega arith; sectors = omega arith; full = refl; ints = omega arith })
      (omega arith) (omega arith) refl (omega arith) (omega arith) (omega arith) (omega arith)
