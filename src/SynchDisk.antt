-- ===== src/SynchDisk.antt =====
-- filesys/synchdisk.cc and machine/disk.cc, as their callers see them: a sector is read or written as
-- a whole, and `ReadRequest` and `WriteRequest` stop at an `ASSERT` for a number that names no sector.
-- A sector is what its caller takes it for: a table of `int`s or a string of bytes. The lock and the
-- interrupt that `ReadSector` and `WriteSector` wait for are in Serial.
pub mod Timing
pub mod Serial
use pku_os_lab.Common.{
  ℕ, ◌<◌, ◌≡◌, ltb, ◌==◌, if◌then◌else◌, ℤ, pos, negsuc, Bool, Run, ok, aborted, lt→ltb, arith,
}

-- `NumSectors` of machine/disk.h: 32 tracks of 32 sectors.
abbrev pub disk_sectors : ℕ
disk_sectors = 1024

abbrev pub Disk : Type 0 → Type 0
Disk A = ℕ → A

module _ {A : Type 0} where
  unfoldable pub read_sector : ℤ → Disk A → Run A
  read_sector (pos s) d = if ltb s disk_sectors then ok (d s) else aborted
  read_sector (negsuc n) d = aborted

  unfoldable pub put : Disk A → ℕ → A → Disk A
  put d s v t = if s == t then v else d t

  unfoldable pub write_sector : ℤ → A → Disk A → Run (Disk A)
  unfolding put
  write_sector (pos s) v d = if ltb s disk_sectors then ok (put d s v) else aborted
  write_sector (negsuc n) v d = aborted

  pub read_sector-ok : (s : ℕ) (d : Disk A) → s < disk_sectors → read_sector (pos s) d ≡ ok (d s)
  unfolding read_sector
  read_sector-ok s d h = rw (lt→ltb s disk_sectors h)

  pub write_sector-ok :
      (s : ℕ) (v : A) (d : Disk A) → s < disk_sectors → write_sector (pos s) v d ≡ ok (put d s v)
  unfolding write_sector
  write_sector-ok s v d h = rw (lt→ltb s disk_sectors h)

  pub put_self : (d : Disk A) (s : ℕ) (v : A) → put d s v s ≡ v
  unfolding put
  put_self d s v = ground arith

  pub put_other : (d : Disk A) (s t : ℕ) (v : A) → (s == t) ≡ Bool.false → put d s v t ≡ d t
  unfolding put
  put_other d s t v h = rw h
