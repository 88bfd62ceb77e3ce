-- ===== src/FileHeader/Direct.antt =====
-- filesys/filehdr.cc as it is built without `INDIRECT_MAP`: every sector number of the file stands
-- in the header itself.
pub mod RoundTrip
pub mod Expand
mod Tests
use pku_os_lab.Common.{
  ℕ, ◌-◌, ◌+◌, ◌/◌, Bool, true, false, ℤ, minus_one, Run, ok, aborted, ◌>>=◌, ltb, ◌==◌,
  if◌then◌else◌, get_or, div_round_up, int_sum, assert, ◌>>◌,
}
use pku_os_lab.Bitmap.{BitMap, num_clear}
use pku_os_lab.FileHeader.{FileHeader, sector_size, num_data_sectors, fill, release_all}

-- `NumDirect`
abbrev pub num_direct : ℕ
num_direct = num_data_sectors

-- `FileHeader::Allocate` returns its result, the header and the free map.
unfoldable pub allocate : FileHeader → BitMap → ℕ → Run (Bool × FileHeader × BitMap)
allocate h free_map file_size = do
  let needed = div_round_up file_size sector_size
  let sized : FileHeader = record h { num_bytes = file_size; num_sectors = needed }
  clear ← num_clear free_map
  if ltb clear needed
      then ok (false, sized, free_map)
      else if ltb needed num_direct
      then (do
        (table, free_map') ← fill needed 0 sized.data_sectors free_map
        ok (true, record sized { data_sectors = table }, free_map'))
      else aborted

pub deallocate : FileHeader → BitMap → Run BitMap
deallocate h free_map = release_all h.num_sectors 0 h.data_sectors free_map

unfoldable pub byte_to_sector : FileHeader → ℕ → ℤ
byte_to_sector h offset = get_or h.data_sectors (offset / sector_size) minus_one

unfoldable pub file_length : FileHeader → ℕ
file_length h = h.num_bytes

-- `FileHeader::ExpandFileSize`
pub expand_file_size : FileHeader → BitMap → ℕ → Run (Bool × FileHeader × BitMap)
expand_file_size h free_map additional = do
  assert (ltb 0 additional)
  let init = h.num_sectors
  bytes ← int_sum h.num_bytes additional
  let needed = div_round_up bytes sector_size
  let sized : FileHeader = record h { num_bytes = bytes; num_sectors = needed }
  if init == needed then ok (true, sized, free_map) else (do
    clear ← num_clear free_map
    if ltb clear (needed - init)
        then ok (false, sized, free_map)
        else if ltb needed num_direct
        then (do
          (table, free_map') ← fill (needed - init) init sized.data_sectors free_map
          ok (true, record sized { data_sectors = table }, free_map'))
        else aborted)
