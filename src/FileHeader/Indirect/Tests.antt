-- ===== src/FileHeader/Indirect/Tests.antt =====
-- The theorems on filesys/filehdr.cc with `INDIRECT_MAP`, at concrete files.
use pku_os_lab.Common.{ℕ, zero, suc, ◌/◌, ◌<◌, ◌≡◌, ◌↔◌, refl, true, false, [], ◌∷◌, pos, ok, arith}
use pku_os_lab.Bitmap.{BitMap, num_clear, test}
use pku_os_lab.Bitmap.Marks.{IsValid, marked}
use pku_os_lab.SynchDisk.{Disk}
use pku_os_lab.FileHeader.{FileHeader, sector_size}
use pku_os_lab.FileHeader.Indirect.{
  Table, Stack, allocate, deallocate, byte_to_sector, expand_file_size,
}
use pku_os_lab.FileHeader.Indirect.Tree.{IsStack}
use pku_os_lab.FileHeader.Indirect.RoundTrip.{GivenBack, deallocate-allocate_tables}
use pku_os_lab.FileHeader.Indirect.Blocks.{byte_to_sector-allocate_tables}

abbrev zeros : ℕ → Table
zeros zero = []
zeros (suc n) = pos 0 ∷ zeros n

abbrev stack : Stack
stack = record { single = zeros 32; double = zeros 32; nested = λ j. zeros 32 }

stack-IsStack : IsStack stack
stack-IsStack = record { single = refl; double = refl; nested = λ j. refl }

-- 96 sectors, of which 0 and 1 are in use.
abbrev roomy : BitMap
roomy = record { num_bits = 96; num_words = 3; words = 3 ∷ 0 ∷ 0 ∷ [] }

roomy-IsValid : IsValid roomy
roomy-IsValid = record { sized = refl; stored = refl; narrow = omega arith }

abbrev blank : FileHeader
blank = record { num_bytes = 0; num_sectors = 0; data_sectors = zeros 9 }

abbrev empty : Disk Table
empty s = zeros 32

-- 50 sectors: both levels of tables.
deallocate-allocate_tables_example :
    (h' : FileHeader) × (b' b'' : BitMap) × (disk' : Disk Table) × (allocate stack blank roomy empty
        6400
      ≡ ok (true, h', b', disk'))
    × (deallocate h' disk' b' ≡ ok b'')
    × GivenBack roomy b'' 6400
deallocate-allocate_tables_example =
    deallocate-allocate_tables stack blank roomy empty 6400 stack-IsStack roomy-IsValid
      (omega arith) refl (omega arith) (omega arith)

byte_to_sector-allocate_tables_example :
    (h' : FileHeader) × (b' : BitMap) × (disk' : Disk Table) × (allocate stack blank roomy empty
        6400
      ≡ ok (true, h', b', disk'))
    × ((o p : ℕ)
        → o < 6400
        → p < 6400
        → (s t : ℕ) × (byte_to_sector h' disk' o ≡ ok (pos s))
          × (byte_to_sector h' disk' p ≡ ok (pos t))
          × (marked roomy s ≡ false)
          × (marked b' s ≡ true)
          × ((s ≡ t) ↔ (o / sector_size ≡ p / sector_size)))
byte_to_sector-allocate_tables_example =
    byte_to_sector-allocate_tables stack blank roomy empty 6400 stack-IsStack roomy-IsValid
      (omega arith) refl (omega arith) (omega arith)

-- From six sectors to seven: TRUE, and no sector is taken.
expand_file_size-unfilled :
    expand_file_size (record blank { num_bytes = 768; num_sectors = 6 }) roomy 100
    ≡ ok (true, record blank { num_bytes = 868; num_sectors = 7 }, roomy)
unfolding expand_file_size num_clear test
expand_file_size-unfilled = refl
