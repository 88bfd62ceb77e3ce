-- ===== src/FileHeader/Indirect/Build.antt =====
-- `Allocate` of filesys/filehdr.cc builds a tree of sectors on each of its branches.
use pku_os_lab.Common.{
  ℕ, zero, suc, ◌+◌, ◌-◌, ◌*◌, ◌≤◌, ◌<◌, ◌≡◌, refl, ◌∙◌, inl, inr, false, ◌==◌, ◌∷◌, ◌++◌, pos,
  minus_one, Run, ok, length, get_or, set, get_or-set_self, get_or-set_ne, ltb, arith, Bool-cases,
  div_round_up, lt→ltb,
}
use pku_os_lab.Bitmap.{BitMap}
use pku_os_lab.Bitmap.Marks.{IsValid}
use pku_os_lab.Bitmap.Find.{clear_count, find-counts}
use pku_os_lab.SynchDisk.{Disk, disk_sectors, put, write_sector-ok, put_self, put_other}
use pku_os_lab.FileHeader.{level_map_num, num_data_sectors}
use pku_os_lab.FileHeader.Sectors.{
  has, Takes, Takes-append, Takes-cons, Holds, fill-Filled, has-append,
}
use pku_os_lab.FileHeader.Tables.{Holds-frame}
use pku_os_lab.FileHeader.Indirect.{
  Table, Stack, num_direct, indirect_sector_idx, double_indirect_sector_idx, allocate_sectors,
  allocate_double, allocate_direct, allocate_single, allocate_all,
}
use pku_os_lab.FileHeader.Indirect.Tree.{
  direct, single, double, Built, IsStack, single_limit, double_limit, table_sectors,
}
use pku_os_lab.FileHeader.Indirect.Tables.{
  Groups, flat, heads, Stored, Stored-frame, spent, allocate_table-Made, fill_tables-AllMade,
}

-- What the tables take is the tables and the sectors that are left.
spent-left :
    (left n j : ℕ)
    → left ≤ (j + n) * level_map_num
    → spent left n j ≡ n + (left - j * level_map_num)
spent-left left zero j h = omega arith
spent-left left (suc n) j h = omega (arith, spent-left left n (j + 1) (omega arith))

tables_cover : (left : ℕ) → left ≤ (0 + div_round_up left level_map_num) * level_map_num
tables_cover left = ground arith

tables_fit :
    (left : ℕ)
    → left < level_map_num * level_map_num
    → div_round_up left level_map_num ≤ level_map_num
tables_fit left h = ground arith

-- The sector of the table of tables, and what it costs.
record Doubled (left : ℕ) (table : Table) (b : BitMap) (disk : Disk Table)
    (r : Run (Table × BitMap × Disk Table)) : Type 0 where
  table' : Table
  b' : BitMap
  disk' : Disk Table
  top : ℕ
  groups : Groups
  run : r ≡ ok (table', b', disk')
  taken : Takes b (top ∷ flat groups) b'
  named : get_or table' double_indirect_sector_idx minus_one ≡ pos top
  others :
      (j : ℕ)
      → (double_indirect_sector_idx == j) ≡ false
      → get_or table' j minus_one ≡ get_or table j minus_one
  holds : Holds (disk' top) 0 (heads groups)
  as_many : length groups ≡ div_round_up left level_map_num
  stored : Stored disk' left 0 groups
  spared : (s : ℕ) → has s (top ∷ flat groups) ≡ false → disk' s ≡ disk s

allocate_double-Doubled :
    (stack : Stack) (left : ℕ) (table : Table) (b : BitMap) (disk : Disk Table)
    → IsStack stack
    → IsValid b
    → b.num_bits ≤ disk_sectors
    → length table ≡ num_data_sectors
    → left < level_map_num * level_map_num
    → 1 + div_round_up left level_map_num + left ≤ clear_count b
    → Doubled left table b disk (allocate_double stack left table b disk)
unfolding allocate_double
allocate_double-Doubled stack left table b disk arrays valid small len fits enough =
    let (t, b₁, run, lt, free, up, one) = find-counts b valid (omega arith) in
    let f =
      fill_tables-AllMade stack.nested left arrays.nested (div_round_up left level_map_num) 0
        stack.double b₁ disk up.valid (omega (arith, up.same_size))
        (omega (arith, arrays.double, tables_fit left fits))
        (omega (arith, spent-left left (div_round_up left level_map_num) 0 (tables_cover left))) in
    let taken : Takes b (t ∷ flat f.groups) f.b' =
      Takes-cons b b₁ f.b' t (flat f.groups) up free lt one f.taken in
    record {
      table' = set table double_indirect_sector_idx (pos t);
      b' = f.b';
      disk' = put f.disk' t f.table';
      top = t;
      groups = f.groups;
      run = rw (run, f.run, write_sector-ok t f.table' f.disk' (omega arith)) refl;
      taken = taken;
      named =
          get_or-set_self table double_indirect_sector_idx (pos t) minus_one (omega (arith, len));
      others =
          λ j ne. get_or-set_ne table double_indirect_sector_idx j (pos t) minus_one (ground arith);
      holds = rw put_self f.holds;
      as_many = f.as_many;
      stored =
          Stored-frame f.disk' (put f.disk' t f.table') left 0 f.groups
            (λ s m. put_other f.disk' t s f.table' (ground (arith, taken.distinct.0))) f.stored;
      spared = λ s out. put_other f.disk' t s f.table' (ground arith) ∙ f.spared s (ground arith);
    }

module _ (stack : Stack) (needed : ℕ) (table : Table) (b : BitMap) (disk : Disk Table)
    (arrays : IsStack stack) (valid : IsValid b) (small : b.num_bits ≤ disk_sectors)
    (len : length table ≡ num_data_sectors) where
  build_direct :
      needed ≤ clear_count b
      → needed < num_direct
      → Built needed b (allocate_direct needed table b disk)
  unfolding allocate_direct
  build_direct enough lt =
      let f = fill-Filled needed 0 table b valid (omega (arith, len)) enough in
      record {
        table' = f.table';
        b' = f.b';
        disk' = disk;
        all = f.sectors;
        run = rw f.run refl;
        taken = f.taken;
        tree = direct lt f.as_many f.holds;
      }

  build_single :
      needed + 1 ≤ clear_count b
      → num_direct ≤ needed
      → needed < single_limit
      → Built needed b (allocate_single stack needed table b disk)
  unfolding allocate_single
  build_single enough ge lt =
      let f = fill-Filled num_direct 0 table b valid (omega (arith, len)) (omega arith) in
      let m =
        allocate_table-Made indirect_sector_idx (needed - num_direct) stack.single f.table' f.b'
          disk f.taken.valid (omega (arith, f.taken.same_size)) (omega (arith, f.same_length, len))
          (omega (arith, arrays.single)) (omega (arith, f.taken.count, f.as_many)) in
      record {
        table' = m.table';
        b' = m.b';
        disk' = m.disk';
        all = f.sectors ++ (m.index ∷ m.entries);
        run = rw (f.run, m.run) refl;
        taken = Takes-append b f.b' m.b' f.sectors (m.index ∷ m.entries) f.taken m.taken;
        tree =
            single f.sectors m.index m.entries ge lt refl f.as_many
              (Holds-frame f.table' m.table' 0 f.sectors
                (λ j lo hi. m.others j (ground (arith, f.as_many))) f.holds)
              m.named m.as_many m.stored;
      }

  build_double :
      needed + 2 + div_round_up (needed - num_direct - level_map_num) level_map_num ≤ clear_count b
      → single_limit ≤ needed
      → needed < double_limit
      → Built needed b (allocate_all stack needed table b disk)
  unfolding allocate_all
  build_double enough ge lt =
      let left : ℕ = needed - num_direct - level_map_num in
      let f = fill-Filled num_direct 0 table b valid (omega (arith, len)) (omega arith) in
      let m =
        allocate_table-Made indirect_sector_idx level_map_num stack.single f.table' f.b' disk
          f.taken.valid (omega (arith, f.taken.same_size)) (omega (arith, f.same_length, len))
          (omega (arith, arrays.single)) (omega (arith, f.taken.count, f.as_many)) in
      let d =
        allocate_double-Doubled stack left m.table' m.b' m.disk' arrays m.taken.valid
          (omega (arith, m.taken.same_size, f.taken.same_size))
          (omega (arith, m.same_length, f.same_length, len)) (omega arith)
          (omega (arith, m.taken.count, f.taken.count, f.as_many, m.as_many)) in
      let below =
        Takes-append f.b' m.b' d.b' (m.index ∷ m.entries) (d.top ∷ flat d.groups) m.taken d.taken in
      let apart : has m.index (d.top ∷ flat d.groups) ≡ false =
        ground (arith, below.distinct.0, has-append m.index m.entries (d.top ∷ flat d.groups)) in
      record {
        table' = d.table';
        b' = d.b';
        disk' = d.disk';
        all = f.sectors ++ ((m.index ∷ m.entries) ++ (d.top ∷ flat d.groups));
        run = rw (f.run, m.run) d.run;
        taken = Takes-append b f.b' d.b' f.sectors _ f.taken below;
        tree =
            double f.sectors m.index m.entries d.top d.groups ge lt refl f.as_many
              (Holds-frame m.table' d.table' 0 f.sectors
                (λ j lo hi. d.others j (ground (arith, f.as_many)))
                (Holds-frame f.table' m.table' 0 f.sectors
                  (λ j lo hi. m.others j (ground (arith, f.as_many))) f.holds))
              (d.others indirect_sector_idx refl ∙ m.named) m.as_many
              (rw (d.spared m.index apart) m.stored) d.named d.holds d.as_many d.stored;
      }

  -- With a free sector for each sector of the file and for each table, `Allocate` finds them all.
  pub build :
      needed + table_sectors needed ≤ clear_count b
      → needed < double_limit
      → Built needed b (allocate_sectors stack needed table b disk)
  unfolding allocate_sectors
  build enough fits = elim (Bool-cases (ltb needed num_direct)) [
    | inl few ↦ rw few (build_direct (omega arith) (ground arith))
    | inr some ↦ elim (Bool-cases (ltb needed single_limit)) [
      | inl more ↦ rw (some, more) (build_single (ground arith) (ground arith) (ground arith))
      | inr many ↦
          rw (some, many, lt→ltb needed double_limit fits)
            (build_double (ground arith) (ground arith) fits)
    ]
  ]
