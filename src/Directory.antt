-- ===== src/Directory.antt =====
-- filesys/directory.h and directory.cc: the table of the names of files. A name is the characters
-- before the terminating zero. `FetchFrom` and `WriteBack` are in FileSystem/DirectoryFile.
pub mod Names
pub mod Lookup
pub mod Update
pub mod Removal
mod Tests
use pku_os_lab.Common.{
  ℕ, zero, suc, ◌+◌, ◌-◌, ◌*◌, Bool, true, false, not, ◌&&◌, List, [], ◌∷◌, Option, none, some,
  ◌==◌, if◌then◌else◌, ℤ, pos, negsuc, minus_one, get_or, set, take,
}
use pku_os_lab.Common.Search.{search}

-- `FileNameMaxLen`: 128 - (1 + 4) * 10 - 1
abbrev pub file_name_max_len : ℕ
file_name_max_len = 128 - (1 + 4) * 10 - 1

pub record DirectoryEntry : Type 0 where
  pub in_use : Bool
  pub sector : ℕ
  pub name : List ℕ

pub record Directory : Type 0 where
  pub table_size : ℕ
  pub table : List DirectoryEntry

abbrev pub blank_entry : DirectoryEntry
blank_entry = record { in_use = false; sector = 0; name = [] }

-- `!strncmp(a, b, n)`
unfoldable pub same_start : ℕ → List ℕ → List ℕ → Bool
same_start zero a b = true
same_start (suc n) [] [] = true
same_start (suc n) [] (y ∷ b) = false
same_start (suc n) (x ∷ a) [] = false
same_start (suc n) (x ∷ a) (y ∷ b) = x == y && same_start n a b

abbrev pub same_name : List ℕ → List ℕ → Bool
same_name a b = same_start file_name_max_len a b

abbrev pub entry : Directory → ℕ → DirectoryEntry
entry d i = get_or d.table i blank_entry

-- `table[i].inUse && !strncmp(table[i].name, name, FileNameMaxLen)`
abbrev pub matches : DirectoryEntry → List ℕ → Bool
matches e name = e.in_use && same_name e.name name

-- What `new DirectoryEntry[size]` holds, with the `inUse` that the loop of the constructor clears.
pub cleared : (ℕ → DirectoryEntry) → ℕ → ℕ → List DirectoryEntry
cleared heap zero i = []
cleared heap (suc n) i = record (heap i) { in_use = false } ∷ cleared heap n (i + 1)

-- `Directory::Directory`
pub new_directory : (ℕ → DirectoryEntry) → ℕ → Directory
new_directory heap size = record { table_size = size; table = cleared heap size 0 }

-- `FindIndex`; -1 is `none`.
unfoldable pub find_index : Directory → List ℕ → Option ℕ
find_index d name = search (λ i. matches (entry d i) name) d.table_size 0

abbrev pub sector_of : Directory → Option ℕ → ℤ
sector_of d none = minus_one
sector_of d (some i) = pos (entry d i).sector

-- `Find`
unfoldable pub find_sector : Directory → List ℕ → ℤ
find_sector d name = sector_of d (find_index d name)

-- The first entry that is free gets the name, cut to `FileNameMaxLen` characters, and the sector.
abbrev pub fill_entry : Directory → Option ℕ → List ℕ → ℕ → Bool × Directory
fill_entry d none name new_sector = (false, d)
fill_entry d (some i) name new_sector = (
  true,
  record d {
    table =
        set d.table i
          (record { in_use = true; sector = new_sector; name = take file_name_max_len name });
  },
)

abbrev pub add_unless : Directory → Option ℕ → List ℕ → ℕ → Bool × Directory
add_unless d (some i) name new_sector = (false, d)
add_unless d none name new_sector =
    fill_entry d (search (λ i. not (entry d i).in_use) d.table_size 0) name new_sector

-- `Add`
unfoldable pub add : Directory → List ℕ → ℕ → Bool × Directory
add d name new_sector = add_unless d (find_index d name) name new_sector

abbrev pub free_entry : Directory → Option ℕ → Bool × Directory
free_entry d none = (false, d)
free_entry d (some i) =
    (true, record d { table = set d.table i (record (entry d i) { in_use = false }) })

-- `Remove`
unfoldable pub remove : Directory → List ℕ → Bool × Directory
remove d name = free_entry d (find_index d name)
