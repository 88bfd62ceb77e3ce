-- ===== src/FileSystem/Tests.antt =====
-- The theorems on filesys/filesys.cc, at a disk with nothing but the headers of the two files, and at one more file.
mod Contents
use pku_os_lab.Common.{
  ℕ, zero, suc, ◌^◌, ◌+◌, ◌++◌, ◌≡◌, refl, ap, true, false, List, [], ◌∷◌, ◌==◌, if◌then◌else◌, ℤ,
  pos, minus_one, ok, some, arith, ◌<◌, clash, set, get_or,
}
use pku_os_lab.Bitmap.{BitMap, find, num_clear, test, mark}
use pku_os_lab.Directory.{
  DirectoryEntry, blank_entry, find_sector, find_index, add, same_start, same_name, matches,
  Directory, entry,
}
use pku_os_lab.Directory.Lookup.{find_sector-none}
use pku_os_lab.Directory.Lookup
use pku_os_lab.FileHeader.Attributes.{header_create_init, get_file_extension}
use pku_os_lab.FileSystem.Dates.{Dated, fetch_header-header_create_init}
use pku_os_lab.FileSystem.HeaderSector
use pku_os_lab.FileSystem.HeaderSector.{fetch_header-write_header}
use pku_os_lab.FileSystem.MapFile.{write_map, fetch_map, fetch_map-write_map}
use pku_os_lab.FileSystem.DirectoryFile.{
  write_directory, fetch_directory, fetch_directory-write_directory,
}
use pku_os_lab.Common.Search.{search}
use pku_os_lab.SynchDisk.{Disk, write_sector, put}
use pku_os_lab.FileHeader.{FileHeader, fill}
use pku_os_lab.FileHeader.Sectors.{Takes, has}
use pku_os_lab.FileHeader.Release.{InUse}
use pku_os_lab.FileHeader.Direct.{allocate}
use pku_os_lab.FileHeader.Direct.RoundTrip.{Describes}
use pku_os_lab.FileSystem.Consistent.{IsConsistent}
use pku_os_lab.FileSystem.Create.{Created, create-Created}
use pku_os_lab.FileSystem.Deletion.{Deleted, remove_file-Deleted}
use pku_os_lab.FileSystem.Format.{Formatted, format-Formatted}
use pku_os_lab.FileSystem.RoundTrip.{
  Restored, open_file-create, remove_file-create, create-IsConsistent,
}
use pku_os_lab.FileSystem.{
  FileSystem, format, open_file, remove_file, create, create_at, create_added, finish_create,
}

abbrev words : ℕ → List ℕ
words zero = []
words (suc n) = 0 ∷ words n

abbrev pub map_with : ℕ → BitMap
map_with w = record { num_bits = 1024; num_words = 32; words = w ∷ words 31 }

abbrev pub blank : FileHeader
blank = record {
  num_bytes = 880;
  num_sectors = 0;
  data_sectors = pos 0 ∷ pos 0 ∷ pos 0 ∷ pos 0 ∷ pos 0 ∷ pos 0 ∷ pos 0 ∷ pos 0 ∷ pos 0 ∷ [];
}

abbrev pub entries : ℕ → List DirectoryEntry
entries zero = []
entries (suc n) = blank_entry ∷ entries n

-- No file, and the sectors of the first word `w` of the map in use.
abbrev pub empty_with : ℕ → FileSystem
empty_with w = record {
  headers = λ s. blank;
  free_map = map_with w;
  directory = record { table_size = 10; table = entries 10 };
}

abbrev pub empty : FileSystem
empty = empty_with 3

-- The file "a" of 200 bytes, with its header at 2.
abbrev pub header : FileHeader
header = record {
  num_bytes = 200;
  num_sectors = 2;
  data_sectors = set (set blank.data_sectors 0 (pos 3)) 1 (pos 4);
}

abbrev pub one_file : FileSystem
one_file = record {
  headers = λ s. if 2 == s then header else blank;
  free_map = map_with 0x1f;
  directory = record {
    table_size = 10;
    table = record { in_use = true; sector = 2; name = 97 ∷ [] } ∷ entries 9;
  };
}

create-file : create empty blank (97 ∷ []) 200 ≡ ok (true, one_file)
unfolding create create_at create_added finish_create find num_clear test mark find_sector
    find_index add same_start search write_sector put fill allocate
create-file = refl

-- The sectors of the two headers, without those of the files' contents.
abbrev system : List ℕ
system = 0 ∷ (1 ∷ [])

system-InUse : InUse empty.free_map system
system-InUse zero m = (refl, omega arith)
system-InUse (suc zero) m = (refl, omega arith)
system-InUse (suc (suc j)) m = absurd (ground (arith, m))

entries-blank : (n i : ℕ) → get_or (entries n) i blank_entry ≡ blank_entry
entries-blank zero i = refl
entries-blank (suc n) zero = refl
entries-blank (suc n) (suc i) = entries-blank n i

nothing_found : (name : List ℕ) → find_sector (empty_with 0).directory name ≡ minus_one
nothing_found name =
    find_sector-none (empty_with 0).directory name
      (λ i lt. ap (λ (e : DirectoryEntry). matches e name) (entries-blank 10 i))

pub empty_with-IsConsistent :
    (w : ℕ) (kept : List ℕ)
    → w < 2 ^ 32
    → InUse (map_with w) kept
    → IsConsistent kept (empty_with w)
empty_with-IsConsistent w kept narrow used = record {
  map_valid = record { sized = refl; stored = refl; narrow = omega (arith, narrow) };
  map_size = refl;
  directory_valid = record {
    full = refl;
    unique = λ i j hi hj u m. clash u (ap (λ (e : DirectoryEntry). e.in_use) (entries-blank 10 i));
  };
  kept_in_use = used;
  owned = λ s. [];
  is_file = λ name s e. absurd (not_there (nothing_found name) e);
  apart = λ name other s u e f. absurd (not_there (nothing_found name) e);
}
  where
    not_there : {z : ℤ} {s : ℕ} → z ≡ minus_one → z ≡ pos s → ⊥
    not_there e f = cc

pub empty-IsConsistent : IsConsistent system empty
empty-IsConsistent = empty_with-IsConsistent 3 system (omega arith) system-InUse

one_file-IsConsistent : IsConsistent system one_file
one_file-IsConsistent =
    create-IsConsistent system empty one_file blank (97 ∷ []) 200 empty-IsConsistent refl
      create-file

create-Created_example : Created system one_file (98 ∷ []) 10 (create one_file blank (98 ∷ []) 10)
create-Created_example =
    create-Created system one_file blank (98 ∷ []) 10 one_file-IsConsistent refl

remove_file-Deleted_example : Deleted system one_file (97 ∷ []) (remove_file one_file (97 ∷ []))
remove_file-Deleted_example = remove_file-Deleted system one_file (97 ∷ []) one_file-IsConsistent

format-Formatted_example : Formatted (format (λ i. i) (λ i. blank_entry) blank blank (λ s. header))
format-Formatted_example =
    format-Formatted (λ i. i) (λ i. blank_entry) blank blank (λ s. header) refl refl

open_file-create_example :
    (s : ℕ) × (xs : List ℕ) × (open_file one_file (97 ∷ []) ≡ ok (some (s, one_file.headers s)))
    × Describes (one_file.headers s) 200 xs
    × Takes empty.free_map (s ∷ xs) one_file.free_map
    × ((other : List ℕ)
        → same_name (97 ∷ []) other ≡ false
        → open_file one_file other ≡ open_file empty other)
open_file-create_example =
    open_file-create system empty one_file blank (97 ∷ []) 200 empty-IsConsistent refl create-file

remove_file-create_example : Restored system empty (remove_file one_file (97 ∷ []))
remove_file-create_example =
    remove_file-create system empty one_file blank (97 ∷ []) 200 empty-IsConsistent refl create-file
