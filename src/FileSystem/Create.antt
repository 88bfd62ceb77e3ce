-- ===== src/FileSystem/Create.antt =====
-- The results of `FileSystem::Create` and `FileSystem::Open` of filesys/filesys.cc.
use pku_os_lab.Common.{
  ℕ, suc, ◌≤◌, ◌<◌, ◌≡◌, true, false, Bool, List, ◌∷◌, ◌==◌, ℤ, pos, minus_one, arith, inl, inr,
  if◌then◌else◌, Run, ok, aborted, ◌>>=◌, length,
}
use pku_os_lab.Bitmap.{BitMap}
use pku_os_lab.Bitmap.Marks.{marked, Updates}
use pku_os_lab.Bitmap.Find.{clear_count, Found, hit, full, find-Found, clear_count-Updates}
use pku_os_lab.Common.Counts.{unset-zero}
use pku_os_lab.Directory.{Directory, same_name, entry, find_sector}
use pku_os_lab.Directory.Lookup.{find_sector-entry, find_sector_cases}
use pku_os_lab.Directory.Update.{Added, taken, no_space, added, add-Added}
use pku_os_lab.SynchDisk.{write_sector-ok, put_self, put_other}
use pku_os_lab.FileHeader.{FileHeader, num_data_sectors}
use pku_os_lab.FileHeader.Sectors.{Takes, Takes-cons}
use pku_os_lab.FileHeader.Direct.{num_direct}
use pku_os_lab.FileHeader.Direct.RoundTrip.{Describes, sectors_for, Allocated, allocate-Allocated}
use pku_os_lab.FileHeader.Direct.RoundTrip as RoundTrip
use pku_os_lab.FileSystem.{FileSystem, create, create_at, create_added, finish_create}
use pku_os_lab.FileSystem.Consistent.{IsConsistent}
use pku_os_lab.FileSystem.Creation.{with_file, with_file-IsConsistent}

-- A directory that does not have the name, and has an entry that is not in use.
pub record CanName (d : Directory) (name : List ℕ) : Type 0 where
  pub absent : find_sector d name ≡ minus_one
  pub index : ℕ
  pub inside : index < d.table_size
  pub free : (entry d index).in_use ≡ false

-- What `Create` may do.
pub data Created (kept : List ℕ) (fs : FileSystem) (name : List ℕ) (size : ℕ)
    : Run (Bool × FileSystem) → Type 0 where
  exists :
      (s : ℕ) → find_sector fs.directory name ≡ pos s → Created kept fs name size (ok (false, fs))
  no_sector :
      find_sector fs.directory name ≡ minus_one
      → clear_count fs.free_map ≡ 0
      → Created kept fs name size (ok (false, fs))
  no_entry :
      find_sector fs.directory name ≡ minus_one
      → 0 < clear_count fs.free_map
      → ((i : ℕ) → i < fs.directory.table_size → (entry fs.directory i).in_use ≡ true)
      → Created kept fs name size (ok (false, fs))
  no_room :
      CanName fs.directory name
      → 0 < clear_count fs.free_map
      → clear_count fs.free_map < suc (sectors_for size)
      → Created kept fs name size (ok (false, fs))
  not_nameable :
      CanName fs.directory name
      → suc (sectors_for size) ≤ clear_count fs.free_map
      → num_direct ≤ sectors_for size
      → Created kept fs name size aborted
  created :
      (fs' : FileSystem) (s : ℕ) (xs : List ℕ)
      → CanName fs.directory name
      → suc (sectors_for size) ≤ clear_count fs.free_map
      → sectors_for size < num_direct
      → IsConsistent kept fs'
      → Takes fs.free_map (s ∷ xs) fs'.free_map
      → Describes (fs'.headers s) size xs
      → ((other : List ℕ)
          → find_sector fs'.directory other
            ≡ (if same_name name other then pos s else find_sector fs.directory other))
      → ((t : ℕ) → (s == t) ≡ false → fs'.headers t ≡ fs.headers t)
      → Created kept fs name size (ok (true, fs'))

module _ (kept : List ℕ) (fs : FileSystem) (header : FileHeader) (name : List ℕ) (size : ℕ)
    (c : IsConsistent kept fs) (len : length header.data_sectors ≡ num_data_sectors)
    (absent : find_sector fs.directory name ≡ minus_one) where
  can_name :
      (k : ℕ)
      → k < fs.directory.table_size
      → (entry fs.directory k).in_use ≡ false
      → CanName fs.directory name
  can_name k inside clear = record { absent = absent; index = k; inside = inside; free = clear }

  module _ (s : ℕ) (b : BitMap) (lt : s < fs.free_map.num_bits)
      (free : marked fs.free_map s ≡ false) (up : Updates fs.free_map b s true) where
    one_fewer : clear_count fs.free_map ≡ suc (clear_count b)
    one_fewer = clear_count-Updates fs.free_map b s up free lt

    space-Created :
        (d : Directory) (r : Run (Bool × FileHeader × BitMap))
        → Added fs.directory name s (true, d)
        → Allocated header b size r
        → Created kept fs name size (r >>= finish_create fs s d)
    unfolding finish_create
    space-Created d _ (added _ k inside clear valid gone finds) (RoundTrip.no_space h' short) =
        no_room (can_name k inside clear) (omega (arith, one_fewer))
          (omega (arith, one_fewer, short))
    space-Created d _ (added _ k inside clear valid gone finds) (RoundTrip.too_large enough large) =
        not_nameable (can_name k inside clear) (omega (arith, one_fewer, enough)) large
    space-Created d _ (added _ k inside clear valid gone finds)
          (RoundTrip.done h' b' xs enough small t describes) =
        let takes = Takes-cons fs.free_map b b' s xs up free lt one_fewer t in
        rw (write_sector-ok s h' fs.headers (omega (arith, lt, c.map_size))) (
          created (with_file kept fs name size s xs h' b' d c takes describes valid finds) s xs
            (can_name k inside clear) (omega (arith, one_fewer, enough)) small
            (with_file-IsConsistent kept fs name size s xs h' b' d c takes describes valid finds)
            takes (rw (put_self fs.headers s h') describes) finds
            (λ t. put_other fs.headers s t h'))

    entry-Created :
        (r : Bool × Directory)
        → Added fs.directory name s r
        → Created kept fs name size (create_added fs header size s b r)
    unfolding create_added
    entry-Created _ (taken i inside match) =
        absurd (clash_sector (find_sector-entry fs.directory i c.directory_valid inside name match))
      where
        clash_sector : {t : ℕ} → find_sector fs.directory name ≡ pos t → ⊥
        clash_sector e = cc
    entry-Created _ (no_space all) = no_entry absent (omega (arith, one_fewer)) all
    entry-Created _ (added d k inside clear valid gone finds) =
        space-Created d _ (added d k inside clear valid gone finds)
          (allocate-Allocated header b size up.valid len)

  sector-Created :
      (r : Run (ℤ × BitMap))
      → Found fs.free_map r
      → Created kept fs name size (r >>= create_at fs header name size)
  unfolding create_at
  sector-Created _ (hit s b lt free below up) =
      entry-Created s b lt free up _ (add-Added fs.directory name s c.directory_valid)
  sector-Created _ (full all) =
      no_sector absent (unset-zero (marked fs.free_map) _ 0 (λ j lo hi. all j (omega arith)))

-- In a consistent file system (the map and the directory are valid, the files that `Find` finds lie in sectors
-- that are in use, no two of them share one, and none has one of `kept`): `Create` returns FALSE and changes
-- nothing if the name is there; if not, then if no sector is free; if some is, then if the directory is full; and if
-- it is not, then if fewer sectors are free than the header and the file need. If there are enough but a header
-- cannot name so many, it stops at the `ASSERT_MSG` of `Allocate`. Just in all other cases it returns TRUE, and the file
-- system is consistent: a header and as many sectors as the size needs, all free before, are taken and no others,
-- the header describes a file of that size, `Find` gives it for the name and what it gave before for all other
-- names, and every other sector holds the header that it held.
pub create-Created :
    (kept : List ℕ) (fs : FileSystem) (header : FileHeader) (name : List ℕ) (size : ℕ)
    → IsConsistent kept fs
    → length header.data_sectors ≡ num_data_sectors
    → Created kept fs name size (create fs header name size)
unfolding create
create-Created kept fs header name size c len = elim (find_sector_cases fs.directory name) [
  | inl absent ↦
      rw absent (
        sector-Created kept fs header name size c len absent _ (find-Found fs.free_map c.map_valid))
  | inr (s, there) ↦ rw there (exists s there)
]
