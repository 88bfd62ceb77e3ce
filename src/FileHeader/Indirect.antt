-- ===== src/FileHeader/Indirect.antt =====
-- filesys/filehdr.cc as it is built with `INDIRECT_MAP`: the last two entries of `dataSectors` name a
-- table of sectors and a table of such tables. A table fills one sector of the disk.
pub mod Tables
pub mod Tree
pub mod Build
pub mod Release
pub mod Levels
pub mod Deallocate
pub mod RoundTrip
pub mod Shortage
pub mod Lookup
pub mod Branches
pub mod Blocks
mod Tests
use Prim.Native.Nat.{min}
use pku_os_lab.Common.{
  ℕ, zero, suc, ◌-◌, ◌+◌, ◌*◌, ◌/◌, ◌%◌, Bool, true, false, List, ℤ, minus_one, Run, ok, aborted,
  ◌>>=◌, ◌>>◌, assert, int_sum, ltb, ◌==◌, if◌then◌else◌, get_or, set, div_round_up,
}
use pku_os_lab.Bitmap.{BitMap, num_clear, find}
use pku_os_lab.SynchDisk.{Disk, read_sector, write_sector}
use pku_os_lab.FileHeader.{
  FileHeader, sector_size, num_data_sectors, level_map_num, fill, release, release_all,
}

-- `NumDirect`, `IndirectSectorIdx` and `DoubleIndirectSectorIdx`
abbrev pub num_direct : ℕ
num_direct = num_data_sectors - 2

abbrev pub indirect_sector_idx : ℕ
indirect_sector_idx = num_data_sectors - 2

abbrev pub double_indirect_sector_idx : ℕ
double_indirect_sector_idx = num_data_sectors - 1

abbrev pub Table : Type 0
Table = List ℤ

-- What the arrays on the stack hold before they are written: `single` is `indirectIndex`, `double` is
-- `doubleIndirectIndex`, and `nested j` is `singleIndirectIndex` in round `j`.
pub record Stack : Type 0 where
  pub single : Table
  pub double : Table
  pub nested : ℕ → Table

-- The loop over `j`, with `n` rounds left, for `left` sectors in all.
pub fill_tables :
    (ℕ → Table) → ℕ → ℕ → ℕ → Table → BitMap → Disk Table → Run (Table × BitMap × Disk Table)
fill_tables nested left zero j double b disk = ok (double, b, disk)
fill_tables nested left (suc n) j double b disk = do
  (t, b₁) ← find b
  (single, b₂) ← fill (min level_map_num (left - j * level_map_num)) 0 (nested j) b₁
  disk' ← write_sector t single disk
  fill_tables nested left n (j + 1) (set double j t) b₂ disk'

-- The table of `count` sectors, at entry `idx` of the header's table.
pub allocate_table : ℕ → ℕ → Table → Table → BitMap → Disk Table → Run (Table × BitMap × Disk Table)
allocate_table idx count uninit table b disk = do
  (t, b₁) ← find b
  (single, b₂) ← fill count 0 uninit b₁
  disk' ← write_sector t single disk
  ok (set table idx t, b₂, disk')

-- The table of tables, for `left` sectors in all.
pub allocate_double : Stack → ℕ → Table → BitMap → Disk Table → Run (Table × BitMap × Disk Table)
allocate_double stack left table b disk = do
  (t, b₁) ← find b
  (double, b₂, disk₂) ←
      fill_tables stack.nested left (div_round_up left level_map_num) 0 stack.double b₁ disk
  disk₃ ← write_sector t double disk₂
  ok (set table double_indirect_sector_idx t, b₂, disk₃)

-- The three branches of `Allocate` that take sectors.
pub allocate_direct : ℕ → Table → BitMap → Disk Table → Run (Table × BitMap × Disk Table)
allocate_direct needed table b disk = do (table', b') ← fill needed 0 table b; ok (table', b', disk)

pub allocate_single : Stack → ℕ → Table → BitMap → Disk Table → Run (Table × BitMap × Disk Table)
allocate_single stack needed table b disk = do
  (table', b') ← fill num_direct 0 table b
  allocate_table indirect_sector_idx (needed - num_direct) stack.single table' b' disk

pub allocate_all : Stack → ℕ → Table → BitMap → Disk Table → Run (Table × BitMap × Disk Table)
allocate_all stack needed table b disk = do
  (table₁, b₁) ← fill num_direct 0 table b
  (table₂, b₂, disk₂) ← allocate_table indirect_sector_idx level_map_num stack.single table₁ b₁ disk
  allocate_double stack (needed - num_direct - level_map_num) table₂ b₂ disk₂

pub allocate_sectors : Stack → ℕ → Table → BitMap → Disk Table → Run (Table × BitMap × Disk Table)
allocate_sectors stack needed table b disk =
    if ltb needed num_direct
    then allocate_direct needed table b disk
    else if ltb needed (num_direct + level_map_num)
    then allocate_single stack needed table b disk
    else if ltb needed (num_direct + level_map_num + level_map_num * level_map_num)
    then allocate_all stack needed table b disk
    else aborted

-- `FileHeader::Allocate` returns its result, the header, the free map and the disk.
pub allocate :
    Stack → FileHeader → BitMap → Disk Table → ℕ → Run (Bool × FileHeader × BitMap × Disk Table)
allocate stack h free_map disk file_size = do
  let needed = div_round_up file_size sector_size
  let sized : FileHeader = record h { num_bytes = file_size; num_sectors = needed }
  clear ← num_clear free_map
  if ltb clear needed then ok (false, sized, free_map, disk) else (do
    (table, free_map', disk') ← allocate_sectors stack needed sized.data_sectors free_map disk
    ok (true, record sized { data_sectors = table }, free_map', disk'))

-- The loop over `ii`, with `n` rounds left, where `i` sectors of the file are done.
pub release_tables : ℕ → ℕ → ℕ → ℕ → Table → Disk Table → BitMap → Run BitMap
release_tables num_sectors zero ii i double disk b = ok b
release_tables num_sectors (suc n) ii i double disk b =
    if ltb i num_sectors
    then (do
      let count = min (num_sectors - i) level_map_num
      single ← read_sector (get_or double ii minus_one) disk
      b₁ ← release_all count 0 single b
      b₂ ← release (get_or double ii minus_one) b₁
      release_tables num_sectors n (ii + 1) (i + count) double disk b₂)
    else ok b

pub release_double : FileHeader → Disk Table → BitMap → Run BitMap
release_double h disk b =
    if ltb (num_direct + level_map_num) h.num_sectors
    then (do
      double ← read_sector (get_or h.data_sectors double_indirect_sector_idx minus_one) disk
      b₁ ← release_tables h.num_sectors level_map_num 0 (num_direct + level_map_num) double disk b
      release (get_or h.data_sectors double_indirect_sector_idx minus_one) b₁)
    else ok b

pub release_single : FileHeader → Disk Table → BitMap → Run BitMap
release_single h disk b =
    if ltb num_direct h.num_sectors
    then (do
      single ← read_sector (get_or h.data_sectors indirect_sector_idx minus_one) disk
      b₁ ← release_all (min (h.num_sectors - num_direct) level_map_num) 0 single b
      b₂ ← release (get_or h.data_sectors indirect_sector_idx minus_one) b₁
      release_double h disk b₂)
    else ok b

pub deallocate : FileHeader → Disk Table → BitMap → Run BitMap
deallocate h disk b = do
  b' ← release_all (min h.num_sectors num_direct) 0 h.data_sectors b
  release_single h disk b'

-- `ByteToSector`
pub byte_to_sector : FileHeader → Disk Table → ℕ → Run ℤ
byte_to_sector h disk offset =
    let direct_size = num_direct * sector_size in
    let single_size = direct_size + level_map_num * sector_size in
    let sector = (offset - single_size) / sector_size in
    if ltb offset direct_size
    then ok (get_or h.data_sectors (offset / sector_size) minus_one)
    else if ltb offset single_size
    then (do
      single ← read_sector (get_or h.data_sectors indirect_sector_idx minus_one) disk
      ok (get_or single ((offset - direct_size) / sector_size) minus_one))
    else (do
      double ← read_sector (get_or h.data_sectors double_indirect_sector_idx minus_one) disk
      single ← read_sector (get_or double (sector / level_map_num) minus_one) disk
      ok (get_or single (sector % level_map_num) minus_one))

-- `FileHeader::ExpandFileSize`, which has no code yet for the sectors that the tables name.
pub expand_file_size : FileHeader → BitMap → ℕ → Run (Bool × FileHeader × BitMap)
expand_file_size h free_map additional = do
  assert (ltb 0 additional)
  let init = h.num_sectors
  bytes ← int_sum h.num_bytes additional
  let needed = div_round_up bytes sector_size
  let sized : FileHeader = record h { num_bytes = bytes; num_sectors = needed }
  if init == needed then ok (true, sized, free_map) else (do
    clear ← num_clear free_map
    if ltb clear (needed - init)
        then ok (false, sized, free_map)
        else if ltb needed num_direct
        then (do
          (table, free_map') ← fill (needed - init) init sized.data_sectors free_map
          ok (true, record sized { data_sectors = table }, free_map'))
        else if ltb needed (num_direct + level_map_num + level_map_num * level_map_num)
        then ok (true, sized, free_map)
        else aborted)
