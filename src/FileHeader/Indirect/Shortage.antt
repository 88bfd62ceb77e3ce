-- ===== src/FileHeader/Indirect/Shortage.antt =====
-- The space check of `Allocate` in filesys/filehdr.cc with `INDIRECT_MAP` does not count the tables.
use pku_os_lab.Common.{
  ℕ, zero, suc, ◌+◌, ◌-◌, ◌*◌, ◌/◌, ◌≤◌, ◌<◌, ◌≡◌, refl, ap, ◌∙◌, true, ℤ, pos, minus_one, Run, ok,
  length, get_or, set, arith, length-set, get_or-set_self, lt→ltb, le→ltb,
}
use pku_os_lab.Common.Counts.{unset-set}
use pku_os_lab.Bitmap.{BitMap, find}
use pku_os_lab.Bitmap.Marks.{IsValid, marked}
use pku_os_lab.Bitmap.Find.{clear_count, find-counts, Found, hit, full, find-Found, num_clear_lem}
use pku_os_lab.SynchDisk.{Disk, disk_sectors, put, put_self, write_sector-ok, read_sector-ok}
use pku_os_lab.FileHeader.{FileHeader, sector_size, num_data_sectors, fill}
use pku_os_lab.FileHeader.Sectors.{fill-Filled}
use pku_os_lab.FileHeader.Indirect.{
  Table, Stack, num_direct, indirect_sector_idx, allocate, allocate_sectors, allocate_single,
  allocate_table, byte_to_sector,
}
use pku_os_lab.FileHeader.Indirect.Tree.{IsStack, single_limit}
use pku_os_lab.FileHeader.Indirect.RoundTrip.{sectors_for}

find_none : (b : BitMap) → IsValid b → clear_count b ≡ 0 → find b ≡ ok (minus_one, b)
find_none b valid none_clear = by_outcome (find b) (find-Found b valid)
  where
    by_outcome : (r : Run (ℤ × BitMap)) → Found b r → r ≡ ok (minus_one, b)
    by_outcome r (hit i b' lt free below up) = absurd (
        omega (
          arith,
          unset-set (marked b) (marked b') i b.num_bits 0 up.bits free (omega arith) (omega arith),
        ))
    by_outcome r (full all) = refl

-- One entry more than there are free sectors: the last one is -1.
fill_short :
    (n i : ℕ) (table : Table) (b : BitMap)
    → IsValid b
    → clear_count b ≡ n
    → i + n < length table
    → (table' : Table) × (b' : BitMap) × (fill (suc n) i table b ≡ ok (table', b'))
      × (get_or table' (i + n) minus_one ≡ minus_one)
unfolding fill
fill_short zero i table b valid none_clear room = (
  set table i minus_one,
  b,
  rw (find_none b valid none_clear) refl,
  ap (λ k. get_or (set table i minus_one) k minus_one) (omega arith)
      ∙ get_or-set_self table i minus_one minus_one (omega arith),
)
fill_short (suc n) i table b valid some_clear room =
    let (x, b₁, run, lt, free, up, one) = find-counts b valid (omega arith) in
    let (table', b', run', last) =
      fill_short n (i + 1) (set table i (pos x)) b₁ up.valid (omega arith)
        (omega (arith, length-set table i (pos x))) in
    (table', b', rw run run', ap (λ k. get_or table' k minus_one) (omega arith) ∙ last)

-- The branch with one table, short of one sector.
short_sectors :
    (stack : Stack) (needed : ℕ) (table : Table) (b : BitMap) (disk : Disk Table)
    → IsStack stack
    → IsValid b
    → b.num_bits ≤ disk_sectors
    → length table ≡ num_data_sectors
    → num_direct < needed
    → needed < single_limit
    → clear_count b ≡ needed
    → (table' : Table) × (b' : BitMap) × (disk' : Disk Table) × (index : ℕ) × (allocate_single stack
          needed table b disk
        ≡ ok (table', b', disk'))
      × (get_or table' indirect_sector_idx minus_one ≡ pos index)
      × (index < disk_sectors)
      × (get_or (disk' index) (needed - 8) minus_one ≡ minus_one)
unfolding allocate_single allocate_table
short_sectors stack needed table b disk arrays valid small len gt lt exact =
    let f = fill-Filled num_direct 0 table b valid (omega (arith, len)) (omega arith) in
    let (t, b₁, run, inside, free, up, one) =
      find-counts f.b' f.taken.valid (omega (arith, f.taken.count, f.as_many)) in
    let (single, b₂, run', last) =
      fill_short (needed - 8) 0 stack.single b₁ up.valid (omega (arith, f.taken.count, f.as_many))
        (omega (arith, arrays.single)) in
    let rounds : needed - num_direct ≡ suc (needed - 8) = omega arith in
    let small_t : t < disk_sectors = omega (arith, f.taken.same_size) in
    (
      set f.table' indirect_sector_idx (pos t),
      b₂,
      put disk t single,
      t,
      rw (f.run, run, rounds, run', write_sector-ok t single disk small_t) refl,
      get_or-set_self f.table' indirect_sector_idx (pos t) minus_one
          (omega (arith, f.same_length, len)),
      small_t,
      rw put_self (ap (λ k. get_or single k minus_one) (omega arith) ∙ last),
    )

-- The last sector of a file that has one table.
last_sector :
    (h : FileHeader) (disk : Disk Table) (needed index : ℕ)
    → num_direct < needed
    → needed < single_limit
    → get_or h.data_sectors indirect_sector_idx minus_one ≡ pos index
    → index < disk_sectors
    → byte_to_sector h disk ((needed - 1) * sector_size)
      ≡ ok (get_or (disk index) (needed - 8) minus_one)
unfolding byte_to_sector
last_sector h disk needed index gt lt named inside =
    let place : ((needed - 1) * sector_size - num_direct * sector_size) / sector_size ≡ needed - 8 =
      omega arith in
    rw
      (
        le→ltb ((needed - 1) * sector_size) (num_direct * sector_size) (omega arith),
        lt→ltb ((needed - 1) * sector_size) (single_limit * sector_size) (omega arith),
        named,
        read_sector-ok index disk inside,
        place,
      )
      refl

allocate_runs :
    (stack : Stack) (h : FileHeader) (b b' : BitMap) (disk disk' : Disk Table) (size : ℕ)
    (table' : Table)
    → num_direct < sectors_for size
    → sectors_for size < single_limit
    → clear_count b ≡ sectors_for size
    → allocate_single stack (sectors_for size) h.data_sectors b disk ≡ ok (table', b', disk')
    → allocate stack h b disk size
      ≡ ok (
        true,
        record h { num_bytes = size; num_sectors = sectors_for size; data_sectors = table' },
        b',
        disk',
      )
unfolding allocate allocate_sectors
allocate_runs stack h b b' disk disk' size table' gt lt exact run =
    rw
      (
        num_clear_lem b,
        le→ltb (clear_count b) (sectors_for size) (omega arith),
        le→ltb (sectors_for size) num_direct (omega arith),
        lt→ltb (sectors_for size) single_limit lt,
        run,
      )
      refl

module _ (stack : Stack) (h : FileHeader) (b : BitMap) (disk : Disk Table) (size : ℕ)
    (arrays : IsStack stack) (valid : IsValid b) (small : b.num_bits ≤ disk_sectors)
    (len : length h.data_sectors ≡ num_data_sectors) where
  -- A file of more than `NumDirect` and fewer than `NumDirect + LevelMapNum` sectors, of which there
  -- are exactly as many free: `Allocate` reports success, and the last sector of the file is then -1.
  allocate_short :
      num_direct < sectors_for size
      → sectors_for size < single_limit
      → clear_count b ≡ sectors_for size
      → (h' : FileHeader) × (b' : BitMap) × (disk' : Disk Table) × (allocate stack h b disk size
          ≡ ok (true, h', b', disk'))
        × (byte_to_sector h' disk' ((sectors_for size - 1) * sector_size) ≡ ok minus_one)
  allocate_short gt lt exact =
      let (table', b', disk', index, run, named, inside, last) =
        short_sectors stack (sectors_for size) h.data_sectors b disk arrays valid small len gt lt
          exact in
      (
        _,
        b',
        disk',
        allocate_runs stack h b b' disk disk' size table' gt lt exact run,
        last_sector _ disk' (sectors_for size) index gt lt named inside ∙ ap ok last,
      )
