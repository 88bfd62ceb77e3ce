-- ===== src/FileSystem/SubDirectory.antt =====
-- `FindDirSector`, `FindDir`, `Open`, `Create`, `Remove` and `RemoveDir` of filesys/filesys.cc as they are built with
-- `MULTI_LEVEL_DIR`, where a directory may hold directories. `contents` is what `FetchFrom` of directory.cc reads from
-- the file whose header is at a sector, where the sectors that the header names are on the disk; the constructor of
-- `OpenFile` stops where the header's sector is not on the disk.
pub mod Lookup
pub mod Routes
pub mod Stored
pub mod Reached
pub mod Creation
pub mod Unlinking
mod Tests
use pku_os_lab.Common.{
  leb, ltb, ◌*◌, ℕ, zero, suc, ◌+◌, Bool, true, false, not, List, Option, none, some, ℤ, pos,
  negsuc, minus_one, Run, ok, aborted, ◌>>=◌, get_or, ◌==◌, if◌then◌else◌,
}
use pku_os_lab.Bitmap.{BitMap, find, clear}
use pku_os_lab.SynchDisk.{Disk, read_sector, put}
use pku_os_lab.Directory.{Directory, DirectoryEntry, find_sector, new_directory, remove}
use pku_os_lab.FileHeader.{FileHeader}
use pku_os_lab.FileHeader.Direct.{deallocate, file_length}
use pku_os_lab.FileSystem.{
  FileSystem, directory_sector, directory_file_size, num_dir_entries, is_minus_one, create_at,
  entry_size,
}
use pku_os_lab.FileSystem.DirectoryFile.{entries_in, table_bytes}
use pku_os_lab.FileSystem.Path.{FilePath, path_parser}

abbrev set_entry : Option (List ℕ) → Run (List ℕ)
set_entry none = aborted
set_entry (some dir) = ok dir

-- `filepath.dirArray[i]`; an entry that was not set is no string.
abbrev dir_name_at : List (Option (List ℕ)) → ℕ → Run (List ℕ)
dir_name_at dirs i = set_entry (get_or dirs i none)

-- `new OpenFile(sector)` and `FetchFrom`
abbrev pub open_dir : Disk FileHeader → (ℕ → Directory) → ℕ → Run Directory
open_dir headers contents sector = do
  header ← read_sector (pos sector) headers
  ok (contents sector)

-- The loop of `FindDirSector` from index `i` on, `n` rounds more; it ends where a directory is not found.
unfoldable pub walk_dirs :
    Disk FileHeader → (ℕ → Directory) → List (Option (List ℕ)) → ℕ → ℕ → ℤ → Run ℤ
walk_dirs headers contents dirs zero i sector = ok sector
walk_dirs headers contents dirs (suc n) i (negsuc k) = ok (negsuc k)
walk_dirs headers contents dirs (suc n) i (pos sector) = do
  directory ← open_dir headers contents sector
  dir ← dir_name_at dirs i
  walk_dirs headers contents dirs n (i + 1) (find_sector directory dir)

-- `FileSystem::FindDirSector`
unfoldable pub find_dir_sector : Disk FileHeader → (ℕ → Directory) → List ℕ → Run ℤ
find_dir_sector headers contents path = do
  filepath ← path_parser path
  walk_dirs headers contents filepath.dir_array filepath.dir_depth 0 (pos directory_sector)

-- The contents of the directory at `sector`; of none, what the constructor makes of the fresh memory.
unfoldable pub directory_at :
    (ℕ → DirectoryEntry) → Disk FileHeader → (ℕ → Directory) → ℤ → Run Directory
directory_at heap headers contents (negsuc n) = ok (new_directory heap num_dir_entries)
directory_at heap headers contents (pos sector) =
    if sector == directory_sector then ok (contents sector) else open_dir headers contents sector

-- `FileSystem::FindDir`
unfoldable pub find_dir :
    (ℕ → DirectoryEntry) → Disk FileHeader → (ℕ → Directory) → List ℕ → Run Directory
find_dir heap headers contents path = do
  sector ← find_dir_sector headers contents path
  directory_at heap headers contents sector

-- `if (sector >= 0) openFile = new OpenFile(sector);`
unfoldable pub open_found : Disk FileHeader → ℤ → Run (Option (ℕ × FileHeader))
open_found headers (negsuc n) = ok none
open_found headers (pos sector) = do
  header ← read_sector (pos sector) headers
  ok (some (sector, header))

-- `FileSystem::Open`
unfoldable pub open_path :
    (ℕ → DirectoryEntry)
    → (ℕ → Directory)
    → Disk FileHeader
    → List ℕ
    → Run (Option (ℕ × FileHeader))
open_path heap contents headers name = do
  directory ← find_dir heap headers contents name
  filepath ← path_parser name
  let base = if filepath.dir_depth == 0 then name else filepath.base
  open_found headers (find_sector directory base)

-- The headers, the free map and the directories on the disk; each directory's file has sectors of its own, which are
-- in use, so that a change of one changes no other.
pub record Tree : Type 0 where
  pub headers : Disk FileHeader
  pub free_map : BitMap
  pub contents : ℕ → Directory

-- The file system with the directory at `dir`, which `Create` handles as that with one directory.
abbrev pub at_directory : Tree → ℕ → FileSystem
at_directory t dir = record {
  headers = t.headers;
  free_map = t.free_map;
  directory = t.contents dir;
}

-- What `FetchFrom` reads after `WriteBack` of `new` to the file with the header `hdr`, of which it read `old`: `WriteAt`
-- writes the bytes that lie in the file, and where the file is too short, the bytes behind are those of `old`.
unfoldable pub stored_directory : (ℕ → ℕ → ℕ) → FileHeader → Directory → Directory → Directory
stored_directory spare hdr old new =
    if leb (new.table_size * entry_size) (file_length hdr) then new else record new {
      table =
          entries_in
            (λ q.
              if ltb q (file_length hdr)
              then table_bytes spare new.table q
              else table_bytes spare old.table q)
            new.table_size 0;
    }

-- What the new file at `sector` holds: an empty directory is written to a directory, and the sectors of another file
-- hold `stale`.
abbrev pub with_file_at :
    (ℕ → DirectoryEntry) → Directory → (ℕ → Directory) → Bool → ℤ → ℕ → Directory
with_file_at heap stale contents is_dir (negsuc k) = contents
with_file_at heap stale contents is_dir (pos sector) =
    put contents sector (if is_dir then new_directory heap num_dir_entries else stale)

-- What is written back if `Create` succeeds: the new directory, and then the one that holds it.
abbrev pub finish_path :
    (ℕ → DirectoryEntry)
    → (ℕ → ℕ → ℕ)
    → Directory
    → Tree
    → Bool
    → ℕ
    → ℤ
    → Bool × FileSystem
    → Bool × Tree
finish_path heap spare stale t is_dir dir sector (false, fs) = (false, t)
finish_path heap spare stale t is_dir dir sector (true, fs) = (
  true,
  record {
    headers = fs.headers;
    free_map = fs.free_map;
    contents =
        put (with_file_at heap stale t.contents is_dir sector) dir
          (stored_directory spare (t.headers dir) (t.contents dir) fs.directory);
  },
)

unfoldable pub create_in :
    (ℕ → DirectoryEntry)
    → (ℕ → ℕ → ℕ)
    → Directory
    → Tree
    → FileHeader
    → List ℕ
    → Bool
    → ℕ
    → ℤ
    → Run (Bool × Tree)
create_in heap spare stale t header base is_dir size (negsuc k) = aborted
create_in heap spare stale t header base is_dir size (pos dir) = do
  directory ← open_dir t.headers t.contents dir
  if not (is_minus_one (find_sector directory base)) then ok (false, t) else (do
    r ← find t.free_map
    made ← create_at (at_directory t dir) header base size r
    ok (finish_path heap spare stale t is_dir dir r.0 made))

-- `FileSystem::Create`; `is_dir` is that the size is given as -1.
unfoldable pub create_path :
    (ℕ → DirectoryEntry)
    → (ℕ → ℕ → ℕ)
    → Directory
    → Tree
    → FileHeader
    → List ℕ
    → Bool
    → ℕ
    → Run (Bool × Tree)
create_path heap spare stale t header name is_dir initial_size = do
  let size = if is_dir then directory_file_size else initial_size
  dir ← find_dir_sector t.headers t.contents name
  filepath ← path_parser name
  let base = if filepath.dir_depth == 0 then name else filepath.base
  create_in heap spare stale t header base is_dir size dir

-- `RemoveDir` from the directory that `FindDir` gave on; it is written back to `directoryFile`, the root.
unfoldable pub remove_found : (ℕ → ℕ → ℕ) → Tree → Directory → List ℕ → ℤ → Run (Bool × Tree)
remove_found spare t directory base sector = do
  header ← read_sector sector t.headers
  map₁ ← deallocate header t.free_map
  map₂ ← clear map₁ sector
  let root =
      stored_directory spare (t.headers directory_sector) (t.contents directory_sector)
        (remove directory base).1
  ok (true, record t { free_map = map₂; contents = put t.contents directory_sector root })

-- `FileSystem::Remove`; `is_dir_file` is `IsDirFile` of the header at a sector.
unfoldable pub remove_path :
    (ℕ → DirectoryEntry) → (ℕ → ℕ → ℕ) → (ℤ → Bool) → Tree → List ℕ → Run (Bool × Tree)
remove_path heap spare is_dir_file t name = do
  directory ← find_dir heap t.headers t.contents name
  filepath ← path_parser name
  let base = if filepath.dir_depth == 0 then name else filepath.base
  let sector = find_sector directory base
  if is_minus_one sector then ok (false, t) else (do
    header ← read_sector sector t.headers
    if is_dir_file sector then ok (false, t) else remove_found spare t directory base sector)

-- `FileSystem::RemoveDir`
unfoldable pub remove_dir : (ℕ → DirectoryEntry) → (ℕ → ℕ → ℕ) → Tree → List ℕ → Run (Bool × Tree)
remove_dir heap spare t name = do
  directory ← find_dir heap t.headers t.contents name
  filepath ← path_parser name
  let base = if filepath.dir_depth == 0 then name else filepath.base
  let sector = find_sector directory base
  if is_minus_one sector then ok (false, t) else remove_found spare t directory base sector
