-- ===== src/FileSystem.antt =====
-- filesys/filesys.h and filesys.cc as filesys/Makefile builds them, with neither `MULTI_LEVEL_DIR` nor
-- `INDIRECT_MAP`: one directory, and headers that name their sectors directly. The two files that stay open are
-- what `FetchFrom` reads from them and `WriteBack` writes to them.
pub mod Consistent
pub mod Creation
pub mod Create
pub mod Deletion
pub mod RoundTrip
pub mod Bytes
pub mod Transfer
pub mod MapFile
pub mod DirectoryFile
pub mod HeaderSector
pub mod Dates
pub mod Path
pub mod SubDirectory
pub mod Format
mod Tests
use pku_os_lab.Common.{
  ℕ, ◌+◌, ◌*◌, ◌/◌, Bool, true, false, not, List, Option, none, some, ◌==◌, if◌then◌else◌, ℤ, pos,
  negsuc, Run, ok, ◌>>=◌, ◌>>◌, assert,
}
use pku_os_lab.Bitmap.{BitMap, new_bit_map, mark, clear, find}
use pku_os_lab.Directory.{
  Directory, DirectoryEntry, file_name_max_len, new_directory, find_sector, add, remove,
}
use pku_os_lab.SynchDisk.{Disk, disk_sectors, read_sector, write_sector}
use pku_os_lab.FileHeader.{FileHeader}
use pku_os_lab.FileHeader.Direct.{allocate, deallocate}

-- `FreeMapSector` and `DirectorySector`
abbrev pub free_map_sector : ℕ
free_map_sector = 0

abbrev pub directory_sector : ℕ
directory_sector = 1

-- `NumSectors / BitsInByte`
abbrev pub free_map_file_size : ℕ
free_map_file_size = disk_sectors / 8

abbrev pub num_dir_entries : ℕ
num_dir_entries = 10

-- An entry is a `bool`, an `int` at offset 4 and the characters with their zero, filled up to a multiple of 4.
abbrev pub entry_size : ℕ
entry_size = (4 + 4 + (file_name_max_len + 1) + 3) / 4 * 4

abbrev pub directory_file_size : ℕ
directory_file_size = entry_size * num_dir_entries

-- `headers` is the disk, where a sector that holds a header is seen as one; `free_map` and `directory` are the
-- contents of `freeMapFile` and `directoryFile`.
pub record FileSystem : Type 0 where
  pub headers : Disk FileHeader
  pub free_map : BitMap
  pub directory : Directory

-- `sector == -1`
abbrev pub is_minus_one : ℤ → Bool
is_minus_one (pos s) = false
is_minus_one (negsuc n) = n == 0

-- The constructor with `format`; the arguments are what the fresh memory and the disk hold.
unfoldable pub format :
    (ℕ → ℕ) → (ℕ → DirectoryEntry) → FileHeader → FileHeader → Disk FileHeader → Run FileSystem
format heap entries map_header dir_header disk = do
  new ← new_bit_map heap disk_sectors
  map₁ ← mark new (pos free_map_sector)
  map₂ ← mark map₁ (pos directory_sector)
  (fits, map_header', map₃) ← allocate map_header map₂ free_map_file_size
  assert fits
  (fits', dir_header', map₄) ← allocate dir_header map₃ directory_file_size
  assert fits'
  disk₁ ← write_sector (pos free_map_sector) map_header' disk
  disk₂ ← write_sector (pos directory_sector) dir_header' disk₁
  ok (record {
    headers = disk₂;
    free_map = map₄;
    directory = new_directory entries num_dir_entries;
  })

-- What `hdr->Allocate` gave, with the sector of the header and the changed directory.
unfoldable pub finish_create :
    FileSystem → ℕ → Directory → Bool × FileHeader × BitMap → Run (Bool × FileSystem)
finish_create fs sector directory (false, header, map) = ok (false, fs)
finish_create fs sector directory (true, header, map) = do
  disk ← write_sector (pos sector) header fs.headers
  ok (true, record { headers = disk; free_map = map; directory = directory })

-- What `directory->Add` gave.
unfoldable pub create_added :
    FileSystem → FileHeader → ℕ → ℕ → BitMap → Bool × Directory → Run (Bool × FileSystem)
create_added fs header size sector map (false, directory) = ok (false, fs)
create_added fs header size sector map (true, directory) = do
  r ← allocate header map size
  finish_create fs sector directory r

-- What `freeMap->Find` gave; `Find` gives no other negative number than -1.
unfoldable pub create_at :
    FileSystem → FileHeader → List ℕ → ℕ → ℤ × BitMap → Run (Bool × FileSystem)
create_at fs header name size (negsuc n, map) = ok (false, fs)
create_at fs header name size (pos sector, map) =
    create_added fs header size sector map (add fs.directory name sector)

-- `FileSystem::Create`; `header` is what `new FileHeader` holds.
unfoldable pub create : FileSystem → FileHeader → List ℕ → ℕ → Run (Bool × FileSystem)
create fs header name size =
    if not (is_minus_one (find_sector fs.directory name))
    then ok (false, fs)
    else (do r ← find fs.free_map; create_at fs header name size r)

-- The header of the open file, with its sector.
unfoldable pub open_at : FileSystem → ℤ → Run (Option (ℕ × FileHeader))
open_at fs (negsuc n) = ok none
open_at fs (pos sector) = do
  header ← read_sector (pos sector) fs.headers
  ok (some (sector, header))

-- `FileSystem::Open`
unfoldable pub open_file : FileSystem → List ℕ → Run (Option (ℕ × FileHeader))
open_file fs name = open_at fs (find_sector fs.directory name)

-- `FileSystem::Remove`
unfoldable pub remove_at : FileSystem → List ℕ → ℤ → Run (Bool × FileSystem)
remove_at fs name sector = if is_minus_one sector then ok (false, fs) else (do
  header ← read_sector sector fs.headers
  map₁ ← deallocate header fs.free_map
  map₂ ← clear map₁ sector
  ok (true, record fs { free_map = map₂; directory = (remove fs.directory name).1 }))

unfoldable pub remove_file : FileSystem → List ℕ → Run (Bool × FileSystem)
remove_file fs name = remove_at fs name (find_sector fs.directory name)
