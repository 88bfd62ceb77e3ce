-- ===== src/FileHeader/Direct/Tests.antt =====
-- The theorems on filesys/filehdr.cc without `INDIRECT_MAP`, at concrete files.
use pku_os_lab.Common.{
  ℕ, ◌<◌, ◌≡◌, refl, true, [], ◌∷◌, ◌==◌, pos, ok, aborted, arith, subst, Bool-cases, inl, inr,
}
use pku_os_lab.Bitmap.{BitMap, find, num_clear, clear, test, mark}
use pku_os_lab.Bitmap.Marks.{IsValid, marked}
use pku_os_lab.FileHeader.{FileHeader, fill, release, release_all}
use pku_os_lab.FileHeader.Sectors.{has}
use pku_os_lab.FileHeader.Direct.{allocate, deallocate, expand_file_size}
use pku_os_lab.FileHeader.Direct.Expand.{Expanded, expand_file_size-Expanded}

-- Sectors 0 and 1 and 3 are in use.
abbrev map_before : BitMap
map_before = record { num_bits = 40; num_words = 2; words = 0x0b ∷ 0 ∷ [] }

abbrev map_after : BitMap
map_after = record map_before { words = 0x3f ∷ 0 ∷ [] }

map_before-IsValid : IsValid map_before
map_before-IsValid = record { sized = refl; stored = refl; narrow = omega arith }

map_after-IsValid : IsValid map_after
map_after-IsValid = record { sized = refl; stored = refl; narrow = omega arith }

abbrev blank : FileHeader
blank = record {
  num_bytes = 0;
  num_sectors = 0;
  data_sectors = pos 0 ∷ pos 0 ∷ pos 0 ∷ pos 0 ∷ pos 0 ∷ pos 0 ∷ pos 0 ∷ pos 0 ∷ pos 0 ∷ [];
}

abbrev file : FileHeader
file = record {
  num_bytes = 300;
  num_sectors = 3;
  data_sectors = pos 2 ∷ pos 4 ∷ pos 5 ∷ pos 0 ∷ pos 0 ∷ pos 0 ∷ pos 0 ∷ pos 0 ∷ pos 0 ∷ [];
}

allocate_test : allocate blank map_before 300 ≡ ok (true, file, map_after)
unfolding allocate num_clear find fill test mark
allocate_test = refl

-- A file of nine sectors, as many as the header has entries, stops at the `ASSERT_MSG`.
largest_test : allocate blank map_before 1152 ≡ aborted
unfolding allocate num_clear test
largest_test = refl

deallocate_test : deallocate file map_after ≡ ok map_before
unfolding deallocate release_all test clear release
deallocate_test = refl

abbrev InUseAt : ℕ → Type 0
InUseAt j = (marked map_after j ≡ true) × (j < 40)

used : (j : ℕ) → has j (2 ∷ 4 ∷ 5 ∷ []) ≡ true → (marked map_after j ≡ true) × (j < 40)
used j h = elim (Bool-cases (2 == j)) [
  | inl e ↦ subst InUseAt {x = 2} (ground arith) (refl, omega arith)
  | inr n₂ ↦ elim (Bool-cases (4 == j)) [
    | inl e ↦ subst InUseAt {x = 4} (ground arith) (refl, omega arith)
    | inr n₄ ↦ subst InUseAt {x = 5} (ground arith) (refl, omega arith)
  ]
]

expand_file_size_example :
    Expanded file map_after 300 200 (2 ∷ 4 ∷ 5 ∷ []) (expand_file_size file map_after 200)
expand_file_size_example =
    expand_file_size-Expanded file map_after 300 200 (2 ∷ 4 ∷ 5 ∷ []) map_after-IsValid refl
      (record { bytes = refl; number = refl; as_many = refl; holds = (refl, (refl, (refl, tt))) })
      (refl, (refl, (refl, tt))) used (omega arith) (omega arith)
