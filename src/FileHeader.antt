-- ===== src/FileHeader.antt =====
-- filesys/filehdr.h and filehdr.cc: the file header (i-node). The build chooses by `INDIRECT_MAP`
-- between a header of direct sector numbers only (`Direct`) and one whose last two entries name
-- index sectors (`Indirect`). A size is an `int` that is not negative.
pub mod Sectors
pub mod Tables
pub mod Release
pub mod Direct
pub mod Indirect
pub mod Attributes
use pku_os_lab.Common.{
  ℕ, zero, suc, ◌+◌, ◌-◌, ◌*◌, ◌/◌, List, ℤ, minus_one, Run, ok, ◌>>=◌, ◌>>◌, assert, get_or, set,
  if◌then◌else◌,
}
use pku_os_lab.Bitmap.{BitMap, test, clear, find}

abbrev pub sector_size : ℕ
sector_size = 128

-- `NumOfIntHeaderInfo*sizeof(int) + LengthOfAllString*sizeof(char)`; `LengthOfAllString` stands for
-- `MaxExtLength + 3*26` with no brackets, which `sizeof(char)` = 1 does not change.
abbrev pub header_info_size : ℕ
header_info_size = 2 * 4 + 5 + 3 * 26

-- The entries of `dataSectors`: `NumDirect` without, `NumDataSectors` with `INDIRECT_MAP`.
abbrev pub num_data_sectors : ℕ
num_data_sectors = (sector_size - header_info_size) / 4

-- `LevelMapNum`
abbrev pub level_map_num : ℕ
level_map_num = sector_size / 4

pub record FileHeader : Type 0 where
  pub num_bytes : ℕ
  pub num_sectors : ℕ
  pub data_sectors : List ℤ

-- `for (...; n more rounds; i++) table[i] = freeMap->Find();`
unfoldable pub fill : ℕ → ℕ → List ℤ → BitMap → Run (List ℤ × BitMap)
fill zero i table b = ok (table, b)
fill (suc n) i table b = do (s, b') ← find b; fill n (i + 1) (set table i s) b'

-- `ASSERT(freeMap->Test(sector)); freeMap->Clear(sector);`
unfoldable pub release : ℤ → BitMap → Run BitMap
release sector b = do t ← test b sector; assert t; clear b sector

-- `for (...; n more rounds; i++) release table[i]`
unfoldable pub release_all : ℕ → ℕ → List ℤ → BitMap → Run BitMap
release_all zero i table b = ok b
release_all (suc n) i table b = do
  b' ← release (get_or table i minus_one) b
  release_all n (i + 1) table b'
