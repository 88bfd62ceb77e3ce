-- ===== src/FileSystem/Consistent.antt =====
-- The invariant of filesys/filesys.cc.
use pku_os_lab.Common.{ℕ, ◌≡◌, true, false, List, ◌∷◌, pos}
use pku_os_lab.Bitmap.{BitMap}
use pku_os_lab.Bitmap.Marks
use pku_os_lab.Directory.{same_name, find_sector}
use pku_os_lab.Directory.Lookup
use pku_os_lab.SynchDisk.{Disk, disk_sectors}
use pku_os_lab.FileHeader.{FileHeader}
use pku_os_lab.FileHeader.Sectors.{has, Distinct}
use pku_os_lab.FileHeader.Release.{InUse}
use pku_os_lab.FileHeader.Direct.RoundTrip.{Describes}
use pku_os_lab.FileSystem.{FileSystem}

-- The header at sector `s` is that of a file in the sectors `xs`. They and `s` are all different, none is one of
-- `kept`, and the map has them in use.
pub record IsFile (kept : List ℕ) (headers : Disk FileHeader) (b : BitMap) (s : ℕ) (xs : List ℕ)
    : Type 0 where
  pub describes : Describes (headers s) (headers s).num_bytes xs
  pub distinct : Distinct (s ∷ xs)
  pub in_use : InUse b (s ∷ xs)
  pub not_kept : (j : ℕ) → has j (s ∷ xs) ≡ true → has j kept ≡ false

-- The sectors `kept` belong to the map and the directory; the file with its header at `s` lies in `owned s`.
pub record IsConsistent (kept : List ℕ) (fs : FileSystem) : Type 0 where
  pub map_valid : Marks.IsValid fs.free_map
  pub map_size : fs.free_map.num_bits ≡ disk_sectors
  pub directory_valid : Lookup.IsValid fs.directory
  pub kept_in_use : InUse fs.free_map kept
  pub owned : ℕ → List ℕ
  pub is_file :
      (name : List ℕ) (s : ℕ)
      → find_sector fs.directory name ≡ pos s
      → IsFile kept fs.headers fs.free_map s (owned s)
  pub apart :
      (name other : List ℕ) (s t : ℕ)
      → find_sector fs.directory name ≡ pos s
      → find_sector fs.directory other ≡ pos t
      → same_name name other ≡ false
      → (j : ℕ) → has j (s ∷ owned s) ≡ true
      → has j (t ∷ owned t) ≡ false
