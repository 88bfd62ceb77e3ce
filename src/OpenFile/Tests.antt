-- ===== src/OpenFile/Tests.antt =====
-- The theorems on `ReadAt` and `WriteAt` of filesys/openfile.cc, at a concrete file.
use pku_os_lab.Common.{
  ℕ, Bool-cases, inl, inr, true, ◌==◌, if◌then◌else◌, ◌+◌, ◌*◌, ◌≡◌, refl, List, [], ◌∷◌, pos, Run,
  ok, aborted, arith,
}
use pku_os_lab.SynchDisk.{Disk, read_sector, write_sector, put}
use pku_os_lab.FileHeader.{FileHeader}
use pku_os_lab.FileHeader.Sectors.{has}
use pku_os_lab.FileHeader.Direct.{byte_to_sector, file_length}
use pku_os_lab.FileHeader.Direct.RoundTrip.{Describes}
use pku_os_lab.OpenFile.{OpenFile, read_sectors, read_at, write_sectors, read_partial, write_at}
use pku_os_lab.OpenFile.Position.{Echoed, read-write}
use pku_os_lab.OpenFile.Writing.{Writes, write_at-Writes}
use pku_os_lab.OpenFile.Reading.{Reads, read_at-Reads}

-- 300 bytes in the sectors 5, 9 and 4.
abbrev file : FileHeader
file = record { num_bytes = 300; num_sectors = 3; data_sectors = pos 5 ∷ pos 9 ∷ pos 4 ∷ [] }

abbrev sectors : List ℕ
sectors = 5 ∷ 9 ∷ 4 ∷ []

-- Byte `q` of sector `s` is `s * 1000 + q`.
abbrev disk : Disk (ℕ → ℕ)
disk s q = s * 1000 + q

abbrev blank : ℕ → ℕ
blank j = 0

file-Describes : Describes file 300 sectors
file-Describes = record {
  bytes = refl;
  number = refl;
  as_many = refl;
  holds = (refl, (refl, (refl, tt)));
}

-- Ten bytes from 120 on: eight of sector 5 and two of sector 9.
read_at-Reads_example :
    Reads disk 300 sectors blank 2 10 120 (read_at file disk blank blank 2 10 120)
read_at-Reads_example =
    read_at-Reads file disk 300 sectors file-Describes
      (omega arith, (omega arith, (omega arith, tt))) blank blank 2 10 120 (omega arith)

-- The character at index `j` after a read.
abbrev char_at : ℕ → Run (ℕ × (ℕ → ℕ)) → ℕ
char_at j (ok (n, into)) = into j
char_at j aborted = 0

abbrev count : Run (ℕ × (ℕ → ℕ)) → ℕ
count (ok (n, into)) = n
count aborted = 0

read_at-across : char_at 10 (read_at file disk blank blank 2 10 120) ≡ 9000
unfolding read_at read_sectors read_sector byte_to_sector file_length
read_at-across = refl

read_at-clipped : count (read_at file disk blank blank 2 10 295) ≡ 5
unfolding read_at read_sectors read_sector byte_to_sector file_length
read_at-clipped = refl

-- Ten bytes at 120: the end of sector 5 and the beginning of sector 9.
write_at-Writes_example :
    Writes disk 300 sectors (λ j. 7) 0 10 120 (write_at file (λ k. blank) (λ j. 7) 0 10 120 disk)
write_at-Writes_example =
    write_at-Writes file 300 sectors file-Describes (omega arith, (omega arith, (omega arith, tt)))
      (refl, (refl, (refl, tt))) (λ k. blank) (λ j. 7) 0 10 120 disk (omega arith)

-- The character `q` of sector `s` after a write.
abbrev stored_at : ℕ → ℕ → Run (ℕ × Disk (ℕ → ℕ)) → ℕ
stored_at s q (ok (n, disk')) = disk' s q
stored_at s q aborted = 0

write_at-inside : stored_at 9 1 (write_at file (λ k. blank) (λ j. 7) 0 10 120 disk) ≡ 7
unfolding write_at write_sectors write_sector put read_partial read_at read_sectors read_sector
    byte_to_sector file_length
write_at-inside = refl

write_at-around : stored_at 9 2 (write_at file (λ k. blank) (λ j. 7) 0 10 120 disk) ≡ 9002
unfolding write_at write_sectors write_sector put read_partial read_at read_sectors read_sector
    byte_to_sector file_length
write_at-around = refl

-- The file at byte 120; while other threads run, one of them writes to sector 6.
abbrev opened : OpenFile
opened = record { hdr = file; header_sector = pos 2; seek_position = 120 }

abbrev elsewhere : Disk (ℕ → ℕ) → Disk (ℕ → ℕ)
elsewhere d s = if s == 6 then blank else d s

elsewhere-others : (d : Disk (ℕ → ℕ)) (s : ℕ) → has s sectors ≡ true → elsewhere d s ≡ d s
elsewhere-others d s h = elim (Bool-cases (s == 6)) [
  | inl six ↦ absurd (ground (arith, h, six))
  | inr other ↦ rw other refl
]

read-write_example : Echoed elsewhere 300 opened (λ k. blank) (λ j. 7) 0 blank 2 10 disk
read-write_example =
    read-write elsewhere 300 sectors elsewhere-others opened file-Describes
      (omega arith, (omega arith, (omega arith, tt))) (refl, (refl, (refl, tt))) (λ k. blank)
      (λ j. 7) 0 blank 2 10 disk (omega arith)
