-- ===== src/FileSystem/Format.antt =====
-- The constructor of filesys/filesys.cc with `format`.
use pku_os_lab.Common.{
  ℕ, ℤ, ◌+◌, ◌<◌, ◌≡◌, refl, ◌∙◌, false, List, [], ◌∷◌, ◌++◌, pos, minus_one, arith, Run, ok,
  length,
}
use pku_os_lab.Common.Counts.{unset-full}
use pku_os_lab.Bitmap.{BitMap, new_bit_map, mark}
use pku_os_lab.Bitmap.Marks.{IsValid, marked, mark-ok}
use pku_os_lab.Bitmap.Find.{clear_count, clear_count-Updates}
use pku_os_lab.Bitmap.Init.{new_bit_map_lem}
use pku_os_lab.Directory.{DirectoryEntry, find_sector, new_directory}
use pku_os_lab.Directory.Removal.{new_directory-empty}
use pku_os_lab.SynchDisk.{Disk, disk_sectors, write_sector-ok, put, put_self, put_other}
use pku_os_lab.FileHeader.{FileHeader, num_data_sectors}
use pku_os_lab.FileHeader.Sectors.{has, Distinct, Takes, Takes-cons, Takes-append}
use pku_os_lab.FileHeader.Release.{Takes-InUse}
use pku_os_lab.FileHeader.Direct.RoundTrip.{Describes, allocate-enough}
use pku_os_lab.FileSystem.{
  FileSystem, format, num_dir_entries, free_map_sector, directory_sector, free_map_file_size,
  directory_file_size,
}
use pku_os_lab.FileSystem.Consistent.{IsConsistent}

-- An empty file system, and the sectors of its two files.
pub record Formatted (r : Run FileSystem) : Type 0 where
  pub fs : FileSystem
  pub runs : r ≡ ok fs
  pub map_sectors : List ℕ
  pub directory_sectors : List ℕ
  pub map_file : Describes (fs.headers free_map_sector) free_map_file_size map_sectors
  pub directory_file : Describes (fs.headers directory_sector) directory_file_size directory_sectors
  pub consistent :
      IsConsistent (free_map_sector ∷ (directory_sector ∷ (map_sectors ++ directory_sectors))) fs
  pub distinct :
      Distinct (free_map_sector ∷ (directory_sector ∷ (map_sectors ++ directory_sectors)))
  pub used_only :
      (j : ℕ)
      → j < disk_sectors
      → marked fs.free_map j
        ≡ has j (free_map_sector ∷ (directory_sector ∷ (map_sectors ++ directory_sectors)))
  pub empty : (name : List ℕ) → find_sector fs.directory name ≡ minus_one

-- The new map, after the sectors of the two headers have been marked in it.
record Reserved (heap : ℕ → ℕ) : Type 0 where
  new : BitMap
  b₁ : BitMap
  b₂ : BitMap
  creates : new_bit_map heap disk_sectors ≡ ok new
  marks : mark new (pos 0) ≡ ok b₁
  marks' : mark b₁ (pos 1) ≡ ok b₂
  size : new.num_bits ≡ disk_sectors
  valid : IsValid b₂
  free : (j : ℕ) → j < disk_sectors → marked new j ≡ false
  count : clear_count b₂ + 2 ≡ disk_sectors
  extend : (xs : List ℕ) (b : BitMap) → Takes b₂ xs b → Takes new (0 ∷ (1 ∷ xs)) b

two_marked : (heap : ℕ → ℕ) → Reserved heap
two_marked heap =
    let (b₀, run₀, valid₀, size₀, free₀) = new_bit_map_lem heap disk_sectors in
    let all : clear_count b₀ ≡ b₀.num_bits =
      unset-full (marked b₀) b₀.num_bits 0 (λ j lo hi. free₀ j (omega (arith, size₀))) in
    let (b₁, run₁, up₁) = mark-ok b₀ 0 valid₀ (omega (arith, size₀)) in
    let lt₁ : 1 < b₁.num_bits = omega (arith, size₀, up₁.same_size) in
    let (b₂, run₂, up₂) = mark-ok b₁ 1 up₁.valid lt₁ in
    let free₁ : marked b₁ 1 ≡ false = ground (arith, up₁.bits 1, free₀ 1) in
    let free₂ = free₀ 0 (omega arith) in
    let fewer₁ = clear_count-Updates b₀ b₁ 0 up₁ free₂ (omega (arith, size₀)) in
    let fewer₂ = clear_count-Updates b₁ b₂ 1 up₂ free₁ lt₁ in
    record {
      new = b₀;
      b₁ = b₁;
      b₂ = b₂;
      creates = run₀;
      marks = run₁;
      marks' = run₂;
      size = size₀;
      valid = up₂.valid;
      free = free₀;
      count = omega (arith, all, size₀, fewer₁, fewer₂);
      extend = λ xs b t.
          Takes-cons b₀ b₁ b 0 (1 ∷ xs) up₁ free₂ (omega (arith, size₀)) fewer₁
            (Takes-cons b₁ b₂ b 1 xs up₂ free₁ lt₁ fewer₂ t);
    }

-- Whatever the fresh memory and the disk hold, the constructor with `format` fails at none of its `ASSERT`s, and
-- leaves a consistent file system in which `Find` finds no name: the header at sector 0 describes a file of the
-- size of the map and the one at sector 1 a file of the size of the directory, in sectors that are all
-- different, and these and 0 and 1 are the sectors that are in use.
pub format-Formatted :
    (heap : ℕ → ℕ) (entries : ℕ → DirectoryEntry) (map_header dir_header : FileHeader)
    (disk : Disk FileHeader)
    → length map_header.data_sectors ≡ num_data_sectors
    → length dir_header.data_sectors ≡ num_data_sectors
    → Formatted (format heap entries map_header dir_header disk)
unfolding format
format-Formatted heap entries map_header dir_header disk len len' =
    let r = two_marked heap in
    let (h₃, b₃, xs, run₃, t₃, d₃) =
      allocate-enough map_header r.b₂ free_map_file_size r.valid len (omega (arith, r.count))
        (omega arith) in
    let (h₄, b₄, ys, run₄, t₄, d₄) =
      allocate-enough dir_header b₃ directory_file_size t₃.valid len'
        (omega (arith, r.count, t₃.count, d₃.as_many)) (omega arith) in
    let disk₁ = put disk 0 h₃ in
    let t = r.extend (xs ++ ys) b₄ (Takes-append r.b₂ b₃ b₄ xs ys t₃ t₄) in
    let (dir_valid, none_found) = new_directory-empty entries num_dir_entries in
    let made : FileSystem = record {
      headers = put disk₁ 1 h₄;
      free_map = b₄;
      directory = new_directory entries num_dir_entries;
    } in
    record {
      fs = made;
      runs =
          rw
            (
              r.creates,
              r.marks,
              r.marks',
              run₃,
              run₄,
              write_sector-ok 0 h₃ disk (omega arith),
              write_sector-ok 1 h₄ disk₁ (omega arith),
            )
            refl;
      map_sectors = xs;
      directory_sectors = ys;
      map_file = rw (put_other disk₁ 1 0 h₄ refl, put_self disk 0 h₃) d₃;
      directory_file = rw (put_self disk₁ 1 h₄) d₄;
      consistent = record {
        map_valid = t.valid;
        map_size = t.same_size ∙ r.size;
        directory_valid = dir_valid;
        kept_in_use = Takes-InUse r.new b₄ _ t;
        owned = λ s. [];
        is_file = λ name s e. absurd (not_there (none_found name) e);
        apart = λ name other s u e f. absurd (not_there (none_found name) e);
      };
      distinct = t.distinct;
      used_only = λ j lt. ground (arith, t.bits j, r.free j lt);
      empty = none_found;
    }
  where
    not_there : {z : ℤ} {s : ℕ} → z ≡ minus_one → z ≡ pos s → ⊥
    not_there e f = cc
