-- ===== src/FileHeader/Indirect/Tree.antt =====
-- The tree of sectors that `Allocate` of filesys/filehdr.cc builds with `INDIRECT_MAP`.
use pku_os_lab.Common.{
  ℕ, ◌+◌, ◌-◌, ◌*◌, ◌≤◌, ◌<◌, ◌≡◌, List, ◌∷◌, ◌++◌, pos, minus_one, Run, ok, length, get_or, ltb,
  if◌then◌else◌, div_round_up,
}
use pku_os_lab.Bitmap.{BitMap}
use pku_os_lab.SynchDisk.{Disk}
use pku_os_lab.FileHeader.{level_map_num}
use pku_os_lab.FileHeader.Sectors.{Takes, Holds}
use pku_os_lab.FileHeader.Indirect.{
  Table, Stack, num_direct, indirect_sector_idx, double_indirect_sector_idx,
}
use pku_os_lab.FileHeader.Indirect.Tables.{Groups, flat, heads, Stored}

-- The sectors that a file may have before it needs a table, and before it needs a table of tables.
abbrev pub single_limit : ℕ
single_limit = num_direct + level_map_num

abbrev pub double_limit : ℕ
double_limit = single_limit + level_map_num * level_map_num

-- The sectors that hold tables, for a file of `needed` data sectors.
abbrev pub table_sectors : ℕ → ℕ
table_sectors needed =
    if ltb needed num_direct
    then 0
    else if ltb needed single_limit
    then 1
    else 2 + div_round_up (needed - num_direct - level_map_num) level_map_num

-- `all` are the sectors of a file, tables included, as its header and the disk record them.
pub data Tree (table : Table) (disk : Disk Table) (needed : ℕ) (all : List ℕ) : Type 0 where
  direct :
      needed < num_direct → length all ≡ needed → Holds table 0 all → Tree table disk needed all
  single :
      (xs : List ℕ) (index : ℕ) (ss : List ℕ)
      → num_direct ≤ needed
      → needed < single_limit
      → all ≡ xs ++ (index ∷ ss)
      → length xs ≡ num_direct
      → Holds table 0 xs
      → get_or table indirect_sector_idx minus_one ≡ pos index
      → length ss ≡ needed - num_direct
      → Holds (disk index) 0 ss
      → Tree table disk needed all
  double :
      (xs : List ℕ) (index : ℕ) (ss : List ℕ) (top : ℕ) (groups : Groups)
      → single_limit ≤ needed
      → needed < double_limit
      → all ≡ xs ++ ((index ∷ ss) ++ (top ∷ flat groups))
      → length xs ≡ num_direct
      → Holds table 0 xs
      → get_or table indirect_sector_idx minus_one ≡ pos index
      → length ss ≡ level_map_num
      → Holds (disk index) 0 ss
      → get_or table double_indirect_sector_idx minus_one ≡ pos top
      → Holds (disk top) 0 (heads groups)
      → length groups ≡ div_round_up (needed - num_direct - level_map_num) level_map_num
      → Stored disk (needed - num_direct - level_map_num) 0 groups
      → Tree table disk needed all

pub record Built (needed : ℕ) (b : BitMap) (r : Run (Table × BitMap × Disk Table)) : Type 0 where
  pub table' : Table
  pub b' : BitMap
  pub disk' : Disk Table
  pub all : List ℕ
  pub run : r ≡ ok (table', b', disk')
  pub taken : Takes b all b'
  pub tree : Tree table' disk' needed all

-- The arrays on the stack have the size that `Allocate` declares.
pub record IsStack (stack : Stack) : Type 0 where
  pub single : length stack.single ≡ level_map_num
  pub double : length stack.double ≡ level_map_num
  pub nested : (j : ℕ) → length (stack.nested j) ≡ level_map_num
