-- ===== src/OpenFile.antt =====
-- filesys/openfile.cc, on a header of direct sector numbers: the bytes of a file. A buffer of characters
-- is a function from its index, and a pointer into it is the buffer with an index. `numBytes` and
-- `position` are not negative. The times of access that the header keeps and the numbers of the visitors of a
-- file are left out; `Thread::Yield`, which `Read` and `Write` call, is a parameter.
pub mod Extent
pub mod Reading
pub mod Blocks
pub mod Buffer
pub mod Writing
pub mod Position
mod Tests
use pku_os_lab.Common.{
  ℕ, zero, suc, ◌+◌, ◌-◌, ◌*◌, ◌/◌, Bool, ◌&&◌, ◌||◌, not, ltb, leb, ◌==◌, ℤ, if◌then◌else◌, Run,
  ok, ◌>>=◌, int_sum,
}
use pku_os_lab.SynchDisk.{Disk, read_sector, write_sector}
use pku_os_lab.FileHeader.{FileHeader, sector_size}
use pku_os_lab.FileHeader.Direct.{byte_to_sector, file_length}

-- `bcopy(&from[start], &to[at], n)`
abbrev pub bcopy : (ℕ → ℕ) → ℕ → (ℕ → ℕ) → ℕ → ℕ → ℕ → ℕ
bcopy from start to at n j = if leb at j && ltb j (at + n) then from (start + (j - at)) else to j

-- `for (i = first; i <= last; i++) synchDisk->ReadSector(...)`, with `n` rounds left
pub read_sectors : FileHeader → Disk (ℕ → ℕ) → ℕ → ℕ → ℕ → (ℕ → ℕ) → Run (ℕ → ℕ)
read_sectors hdr disk first zero i buf = ok buf
read_sectors hdr disk first (suc n) i buf = do
  sector ← read_sector (byte_to_sector hdr (i * sector_size)) disk
  read_sectors hdr disk first n (i + 1) (bcopy sector 0 buf ((i - first) * sector_size) sector_size)

-- How many bytes of a request lie in the file, where `wanted` is `position + numBytes`.
abbrev pub clip : ℕ → ℕ → ℕ → ℕ → ℕ
clip length position num_bytes wanted = if ltb length wanted then length - position else num_bytes

-- `ReadAt` into `into` from its index `at` on; `fresh` is what `new char[]` holds.
pub read_at : FileHeader → Disk (ℕ → ℕ) → (ℕ → ℕ) → (ℕ → ℕ) → ℕ → ℕ → ℕ → Run (ℕ × (ℕ → ℕ))
read_at hdr disk fresh into at num_bytes position =
    let length = file_length hdr in
    if num_bytes == 0 || leb length position then ok (0, into) else (do
      wanted ← int_sum position num_bytes
      let n = clip length position num_bytes wanted
      let first = position / sector_size
      let last = (position + n - 1) / sector_size
      buf ← read_sectors hdr disk first (1 + last - first) first fresh
      ok (n, bcopy buf (position - first * sector_size) into at n))

-- `for (i = first; i <= last; i++) synchDisk->WriteSector(...)`, with `n` rounds left
pub write_sectors : FileHeader → ℕ → ℕ → ℕ → (ℕ → ℕ) → Disk (ℕ → ℕ) → Run (Disk (ℕ → ℕ))
write_sectors hdr first zero i buf disk = ok disk
write_sectors hdr first (suc n) i buf disk = do
  disk' ←
      write_sector (byte_to_sector hdr (i * sector_size)) (λ q. buf ((i - first) * sector_size + q))
        disk
  write_sectors hdr first n (i + 1) buf disk'

-- `ReadAt(&buf[at], SectorSize, k * SectorSize)`, when it is called at all
pub read_partial : FileHeader → Disk (ℕ → ℕ) → (ℕ → ℕ) → Bool → ℕ → ℕ → (ℕ → ℕ) → Run (ℕ → ℕ)
read_partial hdr disk fresh needed k at buf =
    if needed
    then (do (m, buf') ← read_at hdr disk fresh buf at sector_size (k * sector_size); ok buf')
    else ok buf

-- `WriteAt` from `from`, from its index `at` on; `fresh k` is what the buffer that is allocated as
-- number `k` holds.
pub write_at :
    FileHeader → (ℕ → ℕ → ℕ) → (ℕ → ℕ) → ℕ → ℕ → ℕ → Disk (ℕ → ℕ) → Run (ℕ × Disk (ℕ → ℕ))
write_at hdr fresh from at num_bytes position disk =
    let length = file_length hdr in
    if num_bytes == 0 || leb length position then ok (0, disk) else (do
      wanted ← int_sum position num_bytes
      let n = clip length position num_bytes wanted
      let first = position / sector_size
      let last = (position + n - 1) / sector_size
      let first_aligned = position == first * sector_size
      let last_aligned = position + n == (last + 1) * sector_size
      buf₁ ← read_partial hdr disk (fresh 1) (not first_aligned) first 0 (fresh 0)
      buf₂ ←
          read_partial hdr disk (fresh 2)
            (not last_aligned && (not (first == last) || first_aligned)) last
            ((last - first) * sector_size) buf₁
      disk' ←
          write_sectors hdr first (1 + last - first) first
            (bcopy from at buf₂ (position - first * sector_size) n) disk
      ok (n, disk'))

-- An open file; `header_sector` is the field of that name of its header.
pub record OpenFile : Type 0 where
  pub hdr : FileHeader
  pub header_sector : ℤ
  pub seek_position : ℕ

-- `OpenFile::OpenFile` and `OpenFile::~OpenFile`
unfoldable pub new_open_file : Disk FileHeader → ℤ → Run OpenFile
new_open_file headers sector = do
  hdr ← read_sector sector headers
  ok (record { hdr = hdr; header_sector = sector; seek_position = 0 })

unfoldable pub close : OpenFile → Disk FileHeader → Run (Disk FileHeader)
close f headers = write_sector f.header_sector f.hdr headers

unfoldable pub seek : OpenFile → ℕ → OpenFile
seek f position = record f { seek_position = position }

-- `yield_thread` is what the other threads do to the disk while `Thread::Yield` lets them run.
module _ (yield_thread : Disk (ℕ → ℕ) → Disk (ℕ → ℕ)) where
  -- `Read`: its result, the buffer, the open file and the disk.
  unfoldable pub read :
      (ℕ → ℕ)
      → (ℕ → ℕ)
      → ℕ
      → ℕ
      → OpenFile
      → Disk (ℕ → ℕ)
      → Run (ℕ × (ℕ → ℕ) × OpenFile × Disk (ℕ → ℕ))
  read fresh into at num_bytes f disk = do
    (result, into') ← read_at f.hdr disk fresh into at num_bytes f.seek_position
    ok (result, into', record f { seek_position = f.seek_position + result }, yield_thread disk)

  unfoldable pub write :
      (ℕ → ℕ → ℕ) → (ℕ → ℕ) → ℕ → ℕ → OpenFile → Disk (ℕ → ℕ) → Run (ℕ × OpenFile × Disk (ℕ → ℕ))
  write fresh from at num_bytes f disk = do
    (result, disk') ← write_at f.hdr fresh from at num_bytes f.seek_position disk
    ok (result, record f { seek_position = f.seek_position + result }, yield_thread disk')
